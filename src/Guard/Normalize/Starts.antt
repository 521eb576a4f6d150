-- ===== src/Guard/Normalize/Starts.antt =====
-- ai/transcripts/guard.py: normalizing a text from the place of an emitted character on.
use docket_pub.Prelude.{
  ℕ, zero, suc, ◌+◌, ◌-◌, ◌≤◌, ◌<◌, ◌≡◌, ◌≢◌, refl, sym, ap, subst, ◌∙◌, Bool, true, false, ◌&&◌,
  ◌||◌, List, [], ◌∷◌, ◌++◌, Text, drop, length, length-append, arith,
}
use native.Mathlib.Decide.{dec_lt}
use docket_pub.Guard.Normalize.{
  Kind, in_break, soft_hyphen, joins, space, letter, kind_of, Mapped, tagged, lead_space, offset_at,
  folded, is_nonempty, normalize_from,
}
use docket_pub.Guard.Normalize.Steps.{
  offset_at-append_past, offset_at-append_within, run, letter_split, emitted, emitted-All,
  run-Bounded,
}
use docket_pub.Guard.Normalize.Cuts.{run_as}

pub drop-append_past :
    {A : Type 0} (n : ℕ) (xs ys : List A) → drop (length xs + n) (xs ++ ys) ≡ drop n ys
drop-append_past {A} n [] ys = let e : 0 + n ≡ n = omega arith in rw e refl
drop-append_past {A} n (x ∷ xs) ys =
    let e : suc (length xs) + n ≡ suc (length xs + n) = omega arith in
    rw e (drop-append_past n xs ys)

-- The first character, if there is one, is not a space.
abbrev pub BeginsNonblank : Mapped → Type 0
BeginsNonblank [] = Unit
BeginsNonblank (q ∷ qs) = q.0 ≢ b' '

letter_anywhere :
    (j : Bool) (c : ℕ) (cs : Text) → kind_of j c cs ≡ letter → kind_of false c cs ≡ letter
unfolding kind_of
letter_anywhere j c cs h = ground arith

tagged_nonempty : (n i : ℕ) (cs : Text) → n < length (tagged i cs) → is_nonempty cs ≡ true
tagged_nonempty n i [] lt = absurd (omega arith)
tagged_nonempty n i (c ∷ cs) lt = refl

or_true : (b q : Bool) → q ≡ true → (b || q) ≡ true
or_true true q h = refl
or_true false q h = h

-- Behind the space that leads them, characters stand as they would without it.
behind_lead :
    (q : Bool) (i n : ℕ) (t r : Mapped)
    → n < length (lead_space q i ++ t)
    → BeginsNonblank (drop n ((lead_space q i ++ t) ++ r))
    → (u : ℕ) × (u < length t) × (drop n ((lead_space q i ++ t) ++ r) ≡ drop u (t ++ r))
behind_lead false i n t r lt h = (n, lt, refl)
behind_lead true i zero t r lt h = absurd (h refl)
behind_lead true i (suc n) t r lt h = (n, omega arith, refl)

module _ (fold : ℕ → Text) where
  -- A run from some character on, in the state at the beginning of a text.
  abbrev pub fresh : ℕ → Text → Mapped
  fresh = run fold false false false

  abbrev pub Start : Bool → Bool → Bool → ℕ → Text → ℕ → Type 0
  Start j p b i s n =
      n < length (run fold j p b i s)
      → BeginsNonblank (drop n (run fold j p b i s))
      → (u : ℕ) × (drop n (run fold j p b i s)
          ≡ drop u (
              fresh (offset_at (run fold j p b i s) n)
                (drop (offset_at (run fold j p b i s) n - i) s)))

  drop_step : (i e c : ℕ) (cs : Text) → i + 1 ≤ e → drop (e - i) (c ∷ cs) ≡ drop (e - (i + 1)) cs
  drop_step i e c cs h = let q : e - i ≡ suc (e - (i + 1)) = omega (arith, h) in rw q refl

  -- A character that emits nothing.
  silent-Start :
      (j p b : Bool) (i c : ℕ) (cs : Text) (n : ℕ) (j' p' b' : Bool)
      → run fold j p b i (c ∷ cs) ≡ run fold j' p' b' (i + 1) cs
      → Start j' p' b' (i + 1) cs n
      → Start j p b i (c ∷ cs) n
  silent-Start j p b i c cs n j' p' b' full ih lt nb =
      let lt' = rw full at lt in
      let bd = run-Bounded fold j' p' b' (i + 1) cs n lt' in
      let q = drop_step i _ c cs bd.0 in let (u, h) = ih lt' (rw full at nb) in (u, rw (full, q) h)

  module _ (j p b : Bool) (i c : ℕ) (cs : Text) (k : kind_of j c cs ≡ letter) where
    abbrev es : Mapped
    es = emitted fold p b i c

    abbrev rest : Mapped
    rest = run fold false false (b || is_nonempty (folded fold c)) (i + 1) cs

    letter_run : run fold j p b i (c ∷ cs) ≡ es ++ rest
    letter_run = run_as fold j p b i c cs letter k ∙ letter_split fold p b i c cs

    fresh_run :
        is_nonempty (folded fold c) ≡ true → fresh i (c ∷ cs) ≡ tagged i (folded fold c) ++ rest
    fresh_run h =
        let e = or_true b _ h in
        let f =
          run_as fold false false false i c cs letter (letter_anywhere j c cs k)
          ∙ letter_split fold false false i c cs in
        f
        ∙ ap (λ (x : Bool). tagged i (folded fold c) ++ run fold false false x (i + 1) cs)
            (h ∙ sym e)

    letter_run-Start_past :
        (m : ℕ)
        → Start false false (b || is_nonempty (folded fold c)) (i + 1) cs m
        → Start j p b i (c ∷ cs) (length es + m)
    letter_run-Start_past m ih lt nb =
        let l = length-append es rest in
        let lt' : m < length rest = omega (arith, l, rw letter_run at lt) in
        let bd = run-Bounded fold false false (b || is_nonempty (folded fold c)) (i + 1) cs m lt' in
        let o : offset_at (run fold j p b i (c ∷ cs)) (length es + m) ≡ offset_at rest m =
          rw letter_run (offset_at-append_past m es rest) in
        let d : drop (length es + m) (run fold j p b i (c ∷ cs)) ≡ drop m rest =
          rw letter_run (drop-append_past m es rest) in
        let q = drop_step i _ c cs bd.0 in let (u, h) = ih lt' (rw d at nb) in (u, rw (d, o, q) h)

    letter_run-Start_within : (n : ℕ) → n < length es → Start j p b i (c ∷ cs) n
    letter_run-Start_within n q lt nb =
        let (u, w, h) = behind_lead (p && b) i n _ rest q (rw letter_run at nb) in
        let o : offset_at (es ++ rest) n ≡ i =
          (offset_at-append_within i n es rest (emitted-All fold p b i c) q) in
        let z : i - i ≡ 0 = omega arith in
        (u, rw (letter_run, o, z, fresh_run (tagged_nonempty u i _ w)) h)

    letter_run-Start :
        (n : ℕ)
        → ((m : ℕ) → Start false false (b || is_nonempty (folded fold c)) (i + 1) cs m)
        → Start j p b i (c ∷ cs) n
    letter_run-Start n ih = elim (dec_lt n (length es)) [
      | yes q ↦ letter_run-Start_within n q
      | no q ↦
          let e : length es + (n - length es) ≡ n = omega (arith, q) in
          subst (λ (x : ℕ). Start j p b i (c ∷ cs) x) e
            (letter_run-Start_past (n - length es) (ih (n - length es)))
    ]

  run_nil-Start : (j p b : Bool) (i n : ℕ) → Start j p b i [] n
  unfolding normalize_from
  run_nil-Start j p b i n lt nb = absurd (omega arith)

  pub run-Start : (j p b : Bool) (i : ℕ) (s : Text) (n : ℕ) → Start j p b i s n
  run-Start j p b i [] n = run_nil-Start j p b i n
  run-Start j p b i (c ∷ cs) n =
      step (kind_of j c cs) refl (λ j' p' b' m. run-Start j' p' b' (i + 1) cs m)
    where
      step :
          (k : Kind)
          → kind_of j c cs ≡ k
          → ((j' p' b' : Bool) (m : ℕ) → Start j' p' b' (i + 1) cs m)
          → Start j p b i (c ∷ cs) n
      step in_break e ih =
          silent-Start j p b i c cs n true p b (run_as fold j p b i c cs in_break e) (ih true p b n)
      step soft_hyphen e ih =
          silent-Start j p b i c cs n false p b (run_as fold j p b i c cs soft_hyphen e)
            (ih false p b n)
      step joins e ih =
          silent-Start j p b i c cs n true p b (run_as fold j p b i c cs joins e) (ih true p b n)
      step space e ih =
          silent-Start j p b i c cs n false true b (run_as fold j p b i c cs space e)
            (ih false true b n)
      step letter e ih = letter_run-Start j p b i c cs e n (λ m. ih false false _ m)
