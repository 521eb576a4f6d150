-- ===== src/Guard/Find/Exact.antt =====
-- ai/transcripts/guard.py: the span that find_citation reports of an exact match.
use docket_pub.Prelude.{
  ℕ, suc, ◌+◌, ◌-◌, ◌≤◌, ◌<◌, ◌≡◌, ◌≢◌, refl, sym, ap, ◌∙◌, Bool, true, false, ◌&&◌, ◌||◌, List, [],
  ◌∷◌, ◌++◌, Text, take, drop, length, arith, Option-cases, inl, inr,
}
use docket_pub.Discrepancies.Types.{exact}
use docket_pub.Discrepancies.Citations.{slice}
use docket_pub.Guard.Normalize.{
  Kind, in_break, soft_hyphen, joins, space, letter, kind_of, Mapped, tagged, lead_space, offset_at,
  folded, is_nonempty, normalize, normalize_with_map, normalize_from,
}
use docket_pub.Guard.Normalize.Steps.{run, by_kind, run_step, letter_split, emitted, run-Bounded}
use docket_pub.Guard.Normalize.Cuts.{run-Cut}
use docket_pub.Guard.Normalize.Starts.{BeginsNonblank, fresh, run-Start}
use docket_pub.Guard.Find.{characters, find_text, fuzzy_find, find_normalized, find_citation, Block}
use docket_pub.Guard.Find.Texts.{
  StandsIn, drop-map, take-map, length-map, map_append, map-tagged, offset_at-drop, drop_within,
  StandsIn-take, find_text_lem, slice-take,
}

emitted-shift :
    (fold : ℕ → Text) (q : Bool) (i k c : ℕ)
    → characters (lead_space q i ++ tagged i (folded fold c))
      ≡ characters (lead_space q k ++ tagged k (folded fold c))
emitted-shift fold true i k c =
    ap (λ (l : Text). b' ' ∷ l) (map-tagged i (folded fold c) ∙ sym (map-tagged k (folded fold c)))
emitted-shift fold false i k c = map-tagged i (folded fold c) ∙ sym (map-tagged k (folded fold c))

module _ (fold : ℕ → Text) where
  run_nil : (j p b : Bool) (i : ℕ) → run fold j p b i [] ≡ []
  unfolding normalize_from
  run_nil j p b i = refl

  normalize_lem : (s : Text) → normalize fold s ≡ characters (fresh fold 0 s)
  unfolding normalize normalize_with_map
  normalize_lem s = refl

  -- The characters do not depend on where the text begins.
  run-shift :
      (j p b : Bool) (i k : ℕ) (s : Text)
      → characters (run fold j p b i s) ≡ characters (run fold j p b k s)
  run-shift j p b i k [] = ap characters (run_nil j p b i ∙ sym (run_nil j p b k))
  run-shift j p b i k (c ∷ cs) =
      step (kind_of j c cs) (run_step fold j p b i c cs) (run_step fold j p b k c cs)
        (λ j' p' b'. run-shift j' p' b' (i + 1) (k + 1) cs)
    where
      step :
          (kd : Kind)
          → run fold j p b i (c ∷ cs) ≡ by_kind fold kd p b i c cs
          → run fold j p b k (c ∷ cs) ≡ by_kind fold kd p b k c cs
          → ((j' p' b' : Bool)
              → characters (run fold j' p' b' (i + 1) cs)
                ≡ characters (run fold j' p' b' (k + 1) cs))
          → characters (run fold j p b i (c ∷ cs)) ≡ characters (run fold j p b k (c ∷ cs))
      step in_break e f ih = rw (e, f) (ih true p b)
      step soft_hyphen e f ih = rw (e, f) (ih false p b)
      step joins e f ih = rw (e, f) (ih true p b)
      step space e f ih = rw (e, f) (ih false true b)
      step letter e f ih =
          let b' = b || is_nonempty (folded fold c) in
          let es = emitted fold p b i c in
          let fs = emitted fold p b k c in
          rw (e ∙ letter_split fold p b i c cs, f ∙ letter_split fold p b k c cs)
            (map_append es _
              ∙ (ap (λ (l : Text). l ++ characters (run fold false false b' (i + 1) cs))
                    (emitted-shift fold (p && b) i k c)
                  ∙ (ap (λ (l : Text). characters fs ++ l) (ih false false b')
                      ∙ sym (map_append fs _))))

  module _ (source : Text) where
    abbrev whole : Mapped
    whole = fresh fold 0 source

    abbrev start_at : ℕ → ℕ
    start_at pos = offset_at whole pos

    abbrev end_at : ℕ → Text → ℕ
    end_at pos cs = offset_at whole (pos + length cs) + 1

    -- What is to be shown of a span.
    abbrev pub Quotes : Text → ℕ → ℕ → Type 0
    Quotes ne start end =
        (start < end)
        × (end ≤ length source)
        × StandsIn ne (normalize fold (slice source start end))

    nonblank : (c : ℕ) (s : Text) (m : Mapped) → characters m ≡ c ∷ s → c ≢ b' ' → BeginsNonblank m
    nonblank c s [] h ne = tt
    nonblank c s (q ∷ m) h ne = λ e. ne (cc (h, e))

    -- The text from an offset on, normalized.
    abbrev onward : ℕ → Mapped
    onward k = fresh fold k (drop (k - 0) source)

    span_stands :
        (k u c : ℕ) (cs r : Text)
        → drop u (characters (onward k)) ≡ (c ∷ cs) ++ r
        → (k ≤ offset_at (onward k) (u + length cs))
          × StandsIn
              (c ∷ cs)
              (normalize fold (slice source k (offset_at (onward k) (u + length cs) + 1)))
    span_stands k u c cs r h =
        let n = u + length cs in
        let s' = drop (k - 0) source in
        let w = drop_within u c cs r _ h in
        let lm = length-map (onward k) in
        let lt : n < length (onward k) = omega (arith, w, lm) in
        let bd = run-Bounded fold false false false k s' n lt in
        let b = suc (offset_at (onward k) n - k) in
        let cut = run-Cut fold false false false k s' n lt in
        let e =
          take-map (suc n) (fresh fold k (take b s'))
          ∙ (ap characters cut ∙ sym (take-map (suc n) (onward k))) in
        let q : suc n ≡ u + length (c ∷ cs) = omega arith in
        let st = StandsIn-take u c cs r _ (characters (fresh fold k (take b s'))) h (rw q at e) in
        let z : k - 0 ≡ k = omega arith in
        let f : offset_at (onward k) n + 1 ≡ k + b = omega (arith, bd) in
        let sl : slice source k (offset_at (onward k) n + 1) ≡ take b s' =
          ap (λ (x : ℕ). slice source k x) f
          ∙ (slice-take source k b ∙ ap (λ (x : ℕ). take b (drop x source)) (sym z)) in
        (bd.0, rw (sl, normalize_lem (take b s'), run-shift false false false 0 k (take b s')) st)

    span-Quotes :
        (pos c : ℕ) (cs r : Text)
        → drop pos (characters whole) ≡ (c ∷ cs) ++ r
        → c ≢ b' '
        → Quotes (c ∷ cs) (start_at pos) (end_at pos cs)
    span-Quotes pos c cs r h ne =
        let d = sym (drop-map pos whole) ∙ h in
        let w = drop_within pos c cs r _ h in
        let lm = length-map whole in
        let lt : pos < length whole = omega (arith, w, lm) in
        let (u, g) =
          run-Start fold false false false 0 source pos lt (nonblank c (cs ++ r) _ d ne) in
        let k = start_at pos in
        let hm = drop-map u (onward k) ∙ (ap characters (sym g) ∙ d) in
        let (le, st) = span_stands k u c cs r hm in
        let o : offset_at (onward k) (u + length cs) ≡ offset_at whole (pos + length cs) =
          sym (offset_at-drop u (length cs) (onward k))
          ∙ (ap (λ (m : Mapped). offset_at m (length cs)) (sym g)
              ∙ offset_at-drop pos (length cs) whole) in
        let be =
          run-Bounded fold false false false 0 source (pos + length cs) (omega (arith, w, lm)) in
        (omega (arith, le, o), omega (arith, be), rw o at st)

-- The first character, if there is one, is not a space.
abbrev pub IsNonblank : Text → Type 0
IsNonblank [] = Unit
IsNonblank (c ∷ cs) = c ≢ b' '

module _ (fold : ℕ → Text) (blocks : Text → Text → List Block) (ratio : Text → Text → ℕ)
    (window_length : ℕ → ℕ) (threshold : ℕ) where
  fuzzy_not_exact :
      (ne : Text) (m : Mapped)
      → (fuzzy_find fold blocks ratio window_length threshold ne m).kind ≢ exact
  unfolding fuzzy_find
  fuzzy_not_exact ne m h = ground (arith, h)

  find_normalized-Quotes :
      (ne source : Text)
      → IsNonblank ne
      → (find_normalized fold blocks ratio window_length threshold ne
          (normalize_with_map fold source)).kind
        ≡ exact
      → let r =
          find_normalized fold blocks ratio window_length threshold ne
            (normalize_with_map fold source) in
        Quotes fold source ne r.start r.end
  unfolding normalize_with_map
  find_normalized-Quotes [] source nb h = absurd (cc h)
  find_normalized-Quotes (c ∷ cs) source nb h =
      elim (Option-cases (find_text (c ∷ cs) (characters (normalize_with_map fold source)))) [
        | inl e ↦ absurd (fuzzy_not_exact (c ∷ cs) _ (rw (e, find_normalized) at h))
        | inr (pos, e) ↦
            let (r, q) = find_text_lem (c ∷ cs) _ pos e in
            rw (e, find_normalized) (span-Quotes fold source pos c cs r q nb)
      ]

  -- Where find_citation reports an exact match, and the excerpt as normalized does not begin with a
  -- space, the reported span is not empty and lies in the source, and the text of the span, normalized
  -- by itself, contains the normalized excerpt.
  pub find_citation-Quotes :
      (excerpt source : Text)
      → IsNonblank (normalize fold excerpt)
      → (find_citation fold blocks ratio window_length threshold excerpt source).kind ≡ exact
      → Quotes fold source
          (normalize fold excerpt)
          (find_citation fold blocks ratio window_length threshold excerpt source).start
          (find_citation fold blocks ratio window_length threshold excerpt source).end
  unfolding find_citation
  find_citation-Quotes excerpt source nb h =
      find_normalized-Quotes (normalize fold excerpt) source nb h
