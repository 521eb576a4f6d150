-- ===== src/Discrepancies/Citations/Offsets.antt =====
-- ai/transcripts/compare.py: the offsets of transcript_text.
use docket_pub.Prelude.{
  ℕ, zero, suc, ◌+◌, ◌≡◌, refl, List, [], ◌∷◌, ◌++◌, Text, take, length, length-append, All, arith,
  ap, ◌∙◌, sym, subst, keep,
}
use mathlib.Core.List.{append-nil, append_assoc}
use docket_pub.Discrepancies.Citations.{
  Spoken, strip, is_heard, join_spaces, bounds_from, texts, transcript_text, slice,
}

-- take through a prefix of that length
take-append : (s t : Text) → take (length s) (s ++ t) ≡ s
take-append [] t = refl
take-append (c ∷ s) t = ap (λ (u : Text). c ∷ u) (take-append s t)

-- A slice behind a prefix.
slice-append :
    (p s t : Text) (lo hi : ℕ)
    → lo ≡ length p
    → hi ≡ length p + length s
    → slice (p ++ (s ++ t)) lo hi ≡ s
unfolding slice
slice-append [] s t zero hi e f = let h : hi ≡ length s = omega (arith, f) in rw h (take-append s t)
slice-append (c ∷ p) s t (suc lo) (suc hi) e f =
    slice-append p s t lo hi (omega arith) (omega arith)
slice-append [] s t (suc lo) hi e f = absurd (omega arith)
slice-append (c ∷ p) s t zero hi e f = absurd (omega arith)
slice-append (c ∷ p) s t (suc lo) zero e f = absurd (omega arith)

-- A bound cuts the segment's stripped text out of the joined text.
abbrev pub Cuts : Text → ℕ × ℕ × Spoken → Type 0
Cuts joined (lo, hi, s) = slice joined lo hi ≡ strip s.text

-- The last segment's bound.
cut_last : (p t : Text) (pos : ℕ) → pos ≡ length p → slice (p ++ t) pos (pos + length t) ≡ t
cut_last p t pos e =
    ap (λ (u : Text). slice (p ++ u) pos (pos + length t)) (sym (append-nil t))
    ∙ slice-append p t [] pos (pos + length t) e (omega arith)

-- The text before a segment, taken with the segment and the space behind it.
longer_prefix : (p t j : Text) → (p ++ (t ++ (b' ' ∷ []))) ++ j ≡ p ++ (t ++ (b' ' ∷ j))
longer_prefix p t j =
    append_assoc p (t ++ (b' ' ∷ [])) j ∙ ap (λ (u : Text). p ++ u) (append_assoc t (b' ' ∷ []) j)

length-longer_prefix :
    (p t : Text) (pos : ℕ) → pos ≡ length p → pos + length t + 1 ≡ length (p ++ (t ++ (b' ' ∷ [])))
length-longer_prefix p t pos e =
    let a = length-append p (t ++ (b' ' ∷ [])) in
    let b = length-append t (b' ' ∷ []) in omega (arith, a, b)

bounds_from-Cuts :
    (p : Text) (ss : List Spoken) (pos : ℕ)
    → pos ≡ length p
    → All (Cuts (p ++ join_spaces (texts ss))) (bounds_from pos ss)
unfolding bounds_from join_spaces
bounds_from-Cuts p [] pos e = tt
bounds_from-Cuts p (s ∷ []) pos e = (cut_last p (strip s.text) pos e, tt)
bounds_from-Cuts p (s ∷ u ∷ ss) pos e =
    let t = strip s.text in
    let j = join_spaces (texts (u ∷ ss)) in
    (
      slice-append p t (b' ' ∷ j) pos (pos + length t) e (omega arith),
      subst (λ (w : Text). All (Cuts w) (bounds_from (pos + length t + 1) (u ∷ ss)))
          (longer_prefix p t j)
          (bounds_from-Cuts (p ++ (t ++ (b' ' ∷ []))) (u ∷ ss) (pos + length t + 1)
            (length-longer_prefix p t pos e)),
    )

-- Every bound that transcript_text records cuts exactly its segment's stripped text out of the
-- joined text, so that an offset in the joined text and an offset in a segment agree.
pub bounds_cut :
    (ss : List Spoken) → All (Cuts (transcript_text ss).joined) (transcript_text ss).bounds
unfolding transcript_text
bounds_cut ss = bounds_from-Cuts [] (keep is_heard ss) 0 refl
