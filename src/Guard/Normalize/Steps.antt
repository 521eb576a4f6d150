-- ===== src/Guard/Normalize/Steps.antt =====
-- ai/transcripts/guard.py: the steps of normalize_from, and the offsets of what it emits.
use docket_pub.Prelude.{
  ℕ, zero, suc, ◌+◌, ◌-◌, ◌≤◌, ◌<◌, ◌≡◌, ◌≢◌, refl, sym, ap, ◌∙◌, Bool, true, false, ◌&&◌, ◌||◌,
  List, [], ◌∷◌, ◌++◌, Text, take, length, length-append, arith, All,
}
use native.Mathlib.Decide.{dec_lt}
use mathlib.Core.List.{append_assoc}
use docket_pub.Guard.Normalize.{
  Kind, in_break, soft_hyphen, joins, space, letter, kind_of, breaks_line, Mapped, tagged,
  lead_space, folded, offset_at, normalize_from, is_nonempty,
}

pub take-append_within :
    {A : Type 0} (n : ℕ) (xs ys zs : List A) → n ≤ length xs → take n (xs ++ ys) ≡ take n (xs ++ zs)
take-append_within {A} zero xs ys zs h = refl
take-append_within {A} (suc n) [] ys zs h = absurd (omega arith)
take-append_within {A} (suc n) (x ∷ xs) ys zs h =
    ap (λ (l : List A). x ∷ l) (take-append_within n xs ys zs (omega arith))

pub take-append_past :
    {A : Type 0} (n : ℕ) (xs ys zs : List A)
    → take n ys ≡ take n zs
    → take (length xs + n) (xs ++ ys) ≡ take (length xs + n) (xs ++ zs)
take-append_past {A} n [] ys zs h = let e : 0 + n ≡ n = omega arith in rw e h
take-append_past {A} n (x ∷ xs) ys zs h =
    let e : suc (length xs) + n ≡ suc (length xs + n) = omega arith in
    rw e (ap (λ (l : List A). x ∷ l) (take-append_past n xs ys zs h))

pub offset_at-append_past :
    (n : ℕ) (xs ys : Mapped) → offset_at (xs ++ ys) (length xs + n) ≡ offset_at ys n
offset_at-append_past n [] ys = let e : 0 + n ≡ n = omega arith in rw e refl
offset_at-append_past n (x ∷ xs) ys =
    let e : suc (length xs) + n ≡ suc (length xs + n) = omega arith in
    rw e (offset_at-append_past n xs ys)

-- All offsets of a list are `i`.
pub offset_at-append_within :
    (i n : ℕ) (xs ys : Mapped) → All (λ p. p.1 ≡ i) xs → n < length xs → offset_at (xs ++ ys) n ≡ i
offset_at-append_within i n [] ys h lt = absurd (omega arith)
offset_at-append_within i zero (x ∷ xs) ys h lt = h.0
offset_at-append_within i (suc n) (x ∷ xs) ys h lt =
    offset_at-append_within i n xs ys h.1 (omega arith)

pub tagged-All : (i : ℕ) (cs : Text) → All (λ p. p.1 ≡ i) (tagged i cs)
tagged-All i [] = tt
tagged-All i (c ∷ cs) = (refl, tagged-All i cs)

lead-All :
    (b : Bool) (i : ℕ) (ps : Mapped)
    → All (λ p. p.1 ≡ i) ps
    → All (λ p. p.1 ≡ i) (lead_space b i ++ ps)
lead-All true i ps h = (refl, h)
lead-All false i ps h = h

-- A line break that a shorter text has, the longer has.
pub breaks_line-take : (m : ℕ) (cs : Text) → breaks_line (take m cs) ≡ true → breaks_line cs ≡ true
unfolding breaks_line
breaks_line-take zero cs h = cc h
breaks_line-take (suc m) [] h = h
breaks_line-take (suc m) (c ∷ cs) h = ground (arith, breaks_line-take m cs)

-- Only a hyphen looks at the text behind it.
pub kind_of-same :
    (j : Bool) (c : ℕ) (s t : Text) → breaks_line s ≡ breaks_line t → kind_of j c s ≡ kind_of j c t
unfolding kind_of
kind_of-same j c s t e = rw e refl

pub kind_of-ne-joins :
    (j : Bool) (c : ℕ) (s t : Text)
    → breaks_line s ≡ true
    → kind_of j c s ≢ joins
    → kind_of j c t ≡ kind_of j c s
unfolding kind_of
kind_of-ne-joins j c s t e ne = ground arith

module _ (fold : ℕ → Text) where
  abbrev pub run : (joining pending begun : Bool) → ℕ → Text → Mapped
  run = normalize_from fold

  -- The loop on a character, by what it does with it.
  abbrev pub by_kind : Kind → (pending begun : Bool) → ℕ → ℕ → Text → Mapped
  by_kind in_break p b i c cs = run true p b (i + 1) cs
  by_kind soft_hyphen p b i c cs = run false p b (i + 1) cs
  by_kind joins p b i c cs = run true p b (i + 1) cs
  by_kind space p b i c cs = run false true b (i + 1) cs
  by_kind letter p b i c cs =
      lead_space (p && b) i
      ++ (tagged i (folded fold c) ++ run false false (b || is_nonempty (folded fold c)) (i + 1) cs)

  pub run_step :
      (j p b : Bool) (i c : ℕ) (cs : Text)
      → run j p b i (c ∷ cs) ≡ by_kind (kind_of j c cs) p b i c cs
  unfolding normalize_from
  run_step j p b i c cs = step (kind_of j c cs)
    where
      step :
          (k : Kind)
          → elim k as (λ _. Mapped) [
            | in_break ↦ run true p b (i + 1) cs
            | soft_hyphen ↦ run false p b (i + 1) cs
            | joins ↦ run true p b (i + 1) cs
            | space ↦ run false true b (i + 1) cs
            | letter ↦
                lead_space (p && b) i
                ++ (tagged i (folded fold c)
                    ++ run false false (b || is_nonempty (folded fold c)) (i + 1) cs)
          ]
            ≡ by_kind k p b i c cs
      step in_break = refl
      step soft_hyphen = refl
      step joins = refl
      step space = refl
      step letter = refl

  -- What a letter emits, in front of the rest.
  abbrev pub emitted : (p b : Bool) → ℕ → ℕ → Mapped
  emitted p b i c = lead_space (p && b) i ++ tagged i (folded fold c)

  pub emitted-All : (p b : Bool) (i c : ℕ) → All (λ q. q.1 ≡ i) (emitted p b i c)
  emitted-All p b i c = lead-All (p && b) i _ (tagged-All i (folded fold c))

  pub letter_split :
      (p b : Bool) (i c : ℕ) (cs : Text)
      → by_kind letter p b i c cs
        ≡ emitted p b i c ++ run false false (b || is_nonempty (folded fold c)) (i + 1) cs
  letter_split p b i c cs = sym (append_assoc (lead_space (p && b) i) (tagged i (folded fold c)) _)

  -- An offset of a run lies in its text.
  abbrev pub Bounded : ℕ → Text → Mapped → Type 0
  Bounded i s m = (n : ℕ) → n < length m → (i ≤ offset_at m n) × (offset_at m n < i + length s)

  append-Bounded :
      (i c : ℕ) (cs : Text) (es m : Mapped)
      → All (λ q. q.1 ≡ i) es
      → Bounded (i + 1) cs m
      → Bounded i (c ∷ cs) (es ++ m)
  append-Bounded i c cs es m at h n lt = elim (dec_lt n (length es)) [
    | yes q ↦ let e = offset_at-append_within i n es m at q in omega (arith, e)
    | no q ↦
        let k = n - length es in
        let e : n ≡ length es + k = omega (arith, q) in
        let l = length-append es m in
        let r = h k (omega (arith, e, l, q)) in
        let o = offset_at-append_past k es m in rw e (omega (arith, r, o))
  ]

  pub run-Bounded : (j p b : Bool) (i : ℕ) (s : Text) → Bounded i s (run j p b i s)
  unfolding normalize_from
  run-Bounded j p b i [] n lt = absurd (omega arith)
  run-Bounded j p b i (c ∷ cs) n lt =
      step (λ j' p' b'. run-Bounded j' p' b' (i + 1) cs) (kind_of j c cs) (run_step j p b i c cs)
    where
      Goal : Type 0
      Goal =
          (i ≤ offset_at (run j p b i (c ∷ cs)) n)
          × (offset_at (run j p b i (c ∷ cs)) n < i + length (c ∷ cs))

      later : (m : Mapped) → Bounded (i + 1) cs m → run j p b i (c ∷ cs) ≡ m → Goal
      later m h e = let r = h n (rw e at lt) in rw e (omega (arith, r))

      step :
          ((j p b : Bool) → Bounded (i + 1) cs (run j p b (i + 1) cs))
          → (k : Kind) → run j p b i (c ∷ cs) ≡ by_kind k p b i c cs
          → Goal
      step ih in_break e = later _ (ih true p b) e
      step ih soft_hyphen e = later _ (ih false p b) e
      step ih joins e = later _ (ih true p b) e
      step ih space e = later _ (ih false true b) e
      step ih letter e =
          let f = e ∙ letter_split p b i c cs in
          rw f (
            append-Bounded i c cs (emitted p b i c) _ (emitted-All p b i c) (ih false false _) n
              (rw f at lt))
