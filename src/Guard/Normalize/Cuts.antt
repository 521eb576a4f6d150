-- ===== src/Guard/Normalize/Cuts.antt =====
-- ai/transcripts/guard.py: normalizing a text that is cut behind an emitted character.
use docket_pub.Prelude.{
  ℕ, suc, ◌+◌, ◌-◌, ◌≤◌, ◌<◌, ◌≡◌, ◌≢◌, refl, sym, ap, subst, ◌∙◌, Bool, true, false, ◌||◌, [], ◌∷◌,
  ◌++◌, Text, take, length, length-append, arith, Bool-cases, inl, inr,
}
use native.Mathlib.Decide.{dec_lt}
use docket_pub.Guard.Normalize.{
  Kind, in_break, soft_hyphen, joins, space, letter, kind_of, breaks_line, Mapped, offset_at,
  folded, is_nonempty, is_blank_char, is_line_break,
}
use docket_pub.Guard.Normalize.Steps.{
  take-append_within, take-append_past, offset_at-append_past, breaks_line-take, kind_of-same,
  kind_of-ne-joins, run, by_kind, run_step, letter_split, emitted, run-Bounded,
}

joins-breaks : (j : Bool) (c : ℕ) (cs : Text) → kind_of j c cs ≡ joins → breaks_line cs ≡ true
unfolding kind_of
joins-breaks j c cs h = ground arith

-- A cut that keeps the break of a hyphen keeps the kind of a character.
kind_of-take :
    (j : Bool) (c m : ℕ) (cs : Text)
    → kind_of j c cs ≢ joins
    → kind_of j c (take m cs) ≡ kind_of j c cs
kind_of-take j c m cs ne = elim (Bool-cases (breaks_line (take m cs))) [
  | inl h ↦ kind_of-same j c (take m cs) cs (h ∙ sym (breaks_line-take m cs h))
  | inr h ↦ elim (Bool-cases (breaks_line cs)) [
    | inl g ↦ kind_of-ne-joins j c cs (take m cs) g ne
    | inr g ↦ kind_of-same j c (take m cs) cs (h ∙ sym g)
  ]
]

blank_in_break : (c : ℕ) (cs : Text) → is_blank_char c ≡ true → kind_of true c cs ≡ in_break
unfolding kind_of
blank_in_break c cs h = ground arith

breaks_line-blank :
    (c : ℕ) (cs : Text) → is_blank_char c ≡ true → breaks_line (c ∷ cs) ≡ breaks_line cs
unfolding breaks_line
breaks_line-blank c cs h = rw (h, breaks_line) refl

breaks_line-other :
    (c : ℕ) (cs : Text) → is_blank_char c ≡ false → breaks_line (c ∷ cs) ≡ is_line_break c
unfolding breaks_line
breaks_line-other c cs h = rw (h, breaks_line) refl

breaks_line-nil : breaks_line [] ≢ true
unfolding breaks_line
breaks_line-nil h = cc h

-- A cut of a character and a text behind it, at an offset of the text.
cut_step :
    (i e c : ℕ) (cs : Text)
    → i + 1 ≤ e
    → take (suc (e - i)) (c ∷ cs) ≡ c ∷ take (suc (e - (i + 1))) cs
cut_step i e c cs h = let q : e - i ≡ suc (e - (i + 1)) = omega (arith, h) in rw q refl

module _ (fold : ℕ → Text) where
  -- How much of a text emits the first characters, up to the n-th.
  abbrev cut_length : Bool → Bool → Bool → ℕ → Text → ℕ → ℕ
  cut_length j p b i s n = suc (offset_at (run fold j p b i s) n - i)

  abbrev pub cut_at : Bool → Bool → Bool → ℕ → Text → ℕ → Text
  cut_at j p b i s n = take (cut_length j p b i s n) s

  -- Behind a hyphen, a cut at an emitted character keeps the line break.
  break_inside :
      (p b : Bool) (i : ℕ) (s : Text) (n : ℕ)
      → breaks_line s ≡ true
      → n < length (run fold true p b i s)
      → breaks_line (cut_at true p b i s n) ≡ true
  break_inside p b i [] n br lt = absurd (breaks_line-nil br)
  break_inside p b i (c ∷ cs) n br lt = elim (Bool-cases (is_blank_char c)) [
    | inl e ↦
        let k = blank_in_break c cs e in
        let r = rw k at (run_step fold true p b i c cs) in
        let lt' = rw r at lt in
        let bd = run-Bounded fold true p b (i + 1) cs n lt' in
        let ih = break_inside p b (i + 1) cs n (sym (breaks_line-blank c cs e) ∙ br) lt' in
        let q = cut_step i _ c cs bd.0 in rw (r, q) (breaks_line-blank c _ e ∙ ih)
    | inr e ↦ breaks_line-other c _ e ∙ (sym (breaks_line-other c cs e) ∙ br)
  ]

  -- What a run emits up to an offset, it emits of the text cut there.
  abbrev pub Cut : Bool → Bool → Bool → ℕ → Text → ℕ → Type 0
  Cut j p b i s n =
      n < length (run fold j p b i s)
      → take (suc n) (run fold j p b i (cut_at j p b i s n)) ≡ take (suc n) (run fold j p b i s)

  -- A character that emits nothing.
  silent-Cut :
      (j p b : Bool) (i c : ℕ) (cs : Text) (n : ℕ) (j' p' b' : Bool)
      → run fold j p b i (c ∷ cs) ≡ run fold j' p' b' (i + 1) cs
      → (n < length (run fold j' p' b' (i + 1) cs)
          → run fold j p b i (c ∷ cut_at j' p' b' (i + 1) cs n)
            ≡ run fold j' p' b' (i + 1) (cut_at j' p' b' (i + 1) cs n))
      → Cut j' p' b' (i + 1) cs n
      → Cut j p b i (c ∷ cs) n
  silent-Cut j p b i c cs n j' p' b' full cut ih lt =
      let lt' = rw full at lt in
      let bd = run-Bounded fold j' p' b' (i + 1) cs n lt' in
      let q = cut_step i _ c cs bd.0 in rw (full, q, cut lt') (ih lt')

  pub run_as :
      (j p b : Bool) (i c : ℕ) (cs : Text) (k : Kind)
      → kind_of j c cs ≡ k
      → run fold j p b i (c ∷ cs) ≡ by_kind fold k p b i c cs
  run_as j p b i c cs k e = rw e at (run_step fold j p b i c cs)

  module _ (j p b : Bool) (i c : ℕ) (cs : Text) (k : kind_of j c cs ≡ letter)
      (kept : (m : ℕ) → kind_of j c (take m cs) ≡ letter) where
    abbrev es : Mapped
    es = emitted fold p b i c

    abbrev b' : Bool
    b' = b || is_nonempty (folded fold c)

    abbrev rest : Mapped
    rest = run fold false false b' (i + 1) cs

    letter_run : run fold j p b i (c ∷ cs) ≡ es ++ rest
    letter_run = run_as j p b i c cs letter k ∙ letter_split fold p b i c cs

    letter_run-take :
        (m : ℕ)
        → run fold j p b i (c ∷ take m cs) ≡ es ++ run fold false false b' (i + 1) (take m cs)
    letter_run-take m =
        run_as j p b i c (take m cs) letter (kept m) ∙ letter_split fold p b i c (take m cs)

    letter_run-Cut_past :
        (m : ℕ) → Cut false false b' (i + 1) cs m → Cut j p b i (c ∷ cs) (length es + m)
    letter_run-Cut_past m ih lt =
        let l = length-append es rest in
        let lt' : m < length rest = omega (arith, l, rw letter_run at lt) in
        let bd = run-Bounded fold false false b' (i + 1) cs m lt' in
        let u : offset_at (run fold j p b i (c ∷ cs)) (length es + m) ≡ offset_at rest m =
          rw letter_run (offset_at-append_past m es rest) in
        let v = ap (λ (x : ℕ). take (suc (x - i)) (c ∷ cs)) u ∙ cut_step i _ c cs bd.0 in
        let e : suc (length es + m) ≡ length es + suc m = omega arith in
        rw (v, letter_run, letter_run-take (cut_length false false b' (i + 1) cs m), e)
          (take-append_past (suc m) es _ _ (ih lt'))

    letter_run-Cut : (n : ℕ) → ((m : ℕ) → Cut false false b' (i + 1) cs m) → Cut j p b i (c ∷ cs) n
    letter_run-Cut n ih lt = elim (dec_lt n (length es)) [
      | yes q ↦
          rw (letter_run, letter_run-take (offset_at (es ++ rest) n - i))
            (take-append_within (suc n) es _ _ (omega (arith, q)))
      | no q ↦
          let e : length es + (n - length es) ≡ n = omega (arith, q) in
          subst (λ (x : ℕ). Cut j p b i (c ∷ cs) x) e
            (letter_run-Cut_past (n - length es) (ih (n - length es))) lt
    ]

  pub run-Cut : (j p b : Bool) (i : ℕ) (s : Text) (n : ℕ) → Cut j p b i s n
  run-Cut j p b i [] n = λ lt. refl
  run-Cut j p b i (c ∷ cs) n =
      step (kind_of j c cs) refl (λ j' p' b' m. run-Cut j' p' b' (i + 1) cs m)
    where
      kept : (k : Kind) → kind_of j c cs ≡ k → k ≢ joins → (m : ℕ) → kind_of j c (take m cs) ≡ k
      kept k e ne m = kind_of-take j c m cs (λ h. ne (sym e ∙ h)) ∙ e

      step :
          (k : Kind)
          → kind_of j c cs ≡ k
          → ((j' p' b' : Bool) (m : ℕ) → Cut j' p' b' (i + 1) cs m)
          → Cut j p b i (c ∷ cs) n
      step in_break e ih =
          silent-Cut j p b i c cs n true p b (run_as j p b i c cs in_break e)
            (λ _.
              run_as j p b i c _ in_break
                (kept in_break e (λ h. cc h) (cut_length true p b (i + 1) cs n)))
            (ih true p b n)
      step soft_hyphen e ih =
          silent-Cut j p b i c cs n false p b (run_as j p b i c cs soft_hyphen e)
            (λ _.
              run_as j p b i c _ soft_hyphen
                (kept soft_hyphen e (λ h. cc h) (cut_length false p b (i + 1) cs n)))
            (ih false p b n)
      step joins e ih =
          let br = joins-breaks j c cs e in
          silent-Cut j p b i c cs n true p b (run_as j p b i c cs joins e)
            (λ lt.
              run_as j p b i c _ joins
                (kind_of-same j c _ cs (break_inside p b (i + 1) cs n br lt ∙ sym br) ∙ e))
            (ih true p b n)
      step space e ih =
          silent-Cut j p b i c cs n false true b (run_as j p b i c cs space e)
            (λ _.
              run_as j p b i c _ space
                (kept space e (λ h. cc h) (cut_length false true b (i + 1) cs n)))
            (ih false true b n)
      step letter e ih =
          letter_run-Cut j p b i c cs e (kept letter e (λ h. cc h)) n (λ m. ih false false _ m)
