-- ===== src/Speakers/Confidence/Earned.antt =====
-- ai/transcripts/speakers.py: what a confidence of apply_confidence_rules stands for.
use docket_pub.Prelude.{
  ℕ, ◌*◌, ◌≤◌, ◌≡◌, ◌≢◌, refl, sym, ap, ◌∙◌, Bool, true, false, ◌&&◌, ◌||◌, not, ◌⊎◌, inl, inr,
  Option, none, some, List, [], ◌∷◌, ◌++◌, Text, same_text, if◌then◌else◌, leb, length, take, arith,
  Option-cases, In, In-of_contains,
}
use docket_pub.Discrepancies.Citations.{strip}
use docket_pub.Guard.Normalize.{normalize}
use docket_pub.Guard.Find.{find_text}
use docket_pub.Guard.Find.Texts.{StandsIn, find_text_lem, take_append_drop}
use docket_pub.Speakers.Types.{
  SpeakerAssignment, Signal, sample_inference, roll_call, addressed_by_chair, self_identification,
}
use docket_pub.Speakers.Confidence.{
  min_quote_chars, occurs_in, is_response, is_stranger, verified_text, quote_verified,
  first_verified, second_verified, text_or_empty, lesser, method_kept, cap_of,
  apply_confidence_rules,
}

occurs_in-StandsIn : (q text : Text) → occurs_in q text ≡ true → StandsIn q text
unfolding occurs_in
occurs_in-StandsIn q text h = elim (Option-cases (find_text q text)) [
  | inl e ↦ absurd (cc (rw (e, occurs_in) at h))
  | inr (i, e) ↦
      let (r, d) = find_text_lem q text i e in
      (take i text, r, sym (take_append_drop i text) ∙ ap (λ (l : Text). take i text ++ l) d)
]

both_true : (a b : Bool) → (a && b) ≡ true → (a ≡ true) × (b ≡ true)
both_true true b h = (refl, h)
both_true false b h = absurd (cc h)

either_true : (a b : Bool) → (a || b) ≡ true → (a ≡ true) ⊎ (b ≡ true)
either_true true b h = inl refl
either_true false b h = inr h

-- The quote, normalized and stripped, stands in the text, and is long enough or a word that answers
-- a roll call.
abbrev pub IsVerified : (fold : ℕ → Text) → Signal → (quote text : Text) → Type 0
IsVerified fold s quote text =
    let q = strip (normalize fold quote) in
    StandsIn q text × (q ≢ []) × ((min_quote_chars ≤ length q) ⊎ (is_response s q ≡ true))

verified_text-lem :
    (fold : ℕ → Text) (s : Signal) (q text : Text)
    → verified_text fold s q text ≡ true
    → StandsIn q text × (q ≢ []) × ((min_quote_chars ≤ length q) ⊎ (is_response s q ≡ true))
verified_text-lem fold s [] text h = absurd (cc h)
verified_text-lem fold s (c ∷ cs) text h =
    let (l, o) = both_true _ _ h in
    (
      occurs_in-StandsIn (c ∷ cs) text o,
      λ e. cc e,
      elim (either_true (leb min_quote_chars (length (c ∷ cs))) (is_response s (c ∷ cs)) l) [
        | inl g ↦ inl (ground (arith, g))
        | inr g ↦ inr g
      ],
    )

quote_verified-IsVerified :
    (fold : ℕ → Text) (s : Signal) (quote text : Text)
    → quote_verified fold s quote text ≡ true
    → IsVerified fold s quote text
unfolding quote_verified
quote_verified-IsVerified fold s quote text h = verified_text-lem fold s _ text h

same_text_refl : (t : Text) → same_text t t ≡ true
same_text_refl [] = refl
same_text_refl (c ∷ t) = ground (arith, same_text_refl t)

same_text_differ : (t u : Text) → not (same_text t u) ≡ true → t ≢ u
same_text_differ t u h e = cc (rw (e, same_text_refl u) at h)

-- The assignment names nobody, or a member of the roster.
abbrev pub IsSeated : List ℕ → Option ℕ → Type 0
IsSeated roster none = Unit
IsSeated roster (some n) = In n roster

not_stranger-IsSeated :
    (roster : List ℕ) (o : Option ℕ) → is_stranger roster o ≡ false → IsSeated roster o
not_stranger-IsSeated roster none h = tt
not_stranger-IsSeated roster (some n) h = In-of_contains n roster (ground (arith, h))

module _ (fold : ℕ → Text) (unit : ℕ) (rounded : ℕ → ℕ) where
  -- What a cap allows, by the two quotes and whether the named member is a stranger.
  cap_cases :
      (m : Signal) (q1 st q2 : Bool)
      → let c = cap_of fold unit rounded (if q1 && not st then m else sample_inference) q1 q2 in
        (c ≤ 550 * unit)
        ⊎ ((q1 ≡ true) × (st ≡ false) × (c ≤ 950 * unit) × ((c ≤ 750 * unit) ⊎ (q2 ≡ true)))
  unfolding cap_of
  cap_cases m false st q2 = inl (omega arith)
  cap_cases m true true q2 = inl (omega arith)
  cap_cases sample_inference true false q2 = inl (omega arith)
  cap_cases roll_call true false true = inr (refl, refl, omega arith, inr refl)
  cap_cases roll_call true false false = inr (refl, refl, omega arith, inl (omega arith))
  cap_cases addressed_by_chair true false true = inr (refl, refl, omega arith, inr refl)
  cap_cases addressed_by_chair true false false = inr (refl, refl, omega arith, inl (omega arith))
  cap_cases self_identification true false true = inr (refl, refl, omega arith, inr refl)
  cap_cases self_identification true false false = inr (refl, refl, omega arith, inl (omega arith))

  module _ (mono : (m n : ℕ) → m ≤ n → rounded m ≤ rounded n)
      (exact : (n : ℕ) → rounded (n * unit) ≡ n * unit) where
    rounded_below : (n c k : ℕ) → k ≤ n * unit → rounded (lesser fold unit rounded c k) ≤ n * unit
    rounded_below n c k h =
        let l : lesser fold unit rounded c k ≤ n * unit = ground (arith, h) in
        let r = mono _ _ l in rw (exact n) at r

    -- A confidence of apply_confidence_rules is at most 0.95. Where it is above 0.55, the first quote
    -- is found in the text of the cluster, and the assignment names a member of the roster or nobody;
    -- where it is above 0.75, the second quote is found there too and differs from the first. It is
    -- assumed that rounding to thousandths is monotone and keeps a number of thousandths.
    pub confidence_earned :
        (a : SpeakerAssignment) (spoken : Text) (roster : List ℕ)
        → let r = apply_confidence_rules fold unit rounded a spoken roster in
          let text = normalize fold spoken in
          (r.confidence ≤ 950 * unit)
          × ((r.confidence ≤ 550 * unit)
              ⊎ (IsVerified fold a.method a.evidence_quote text
                  × IsSeated roster a.council_member_id))
          × ((r.confidence ≤ 750 * unit)
              ⊎ (IsVerified fold a.method (text_or_empty a.evidence_quote_2) text
                  × (normalize fold (text_or_empty a.evidence_quote_2)
                      ≢ normalize fold a.evidence_quote)))
    unfolding apply_confidence_rules method_kept first_verified second_verified
    confidence_earned a spoken roster =
        let text = normalize fold spoken in
        elim (cap_cases a.method (first_verified fold a text)
          (is_stranger roster a.council_member_id) (second_verified fold a text)) [
            | inl h ↦
                let k = rounded_below 550 a.confidence _ h in
                (omega (arith, k), inl k, inl (omega (arith, k)))
            | inr (v, st, h, d) ↦ (
              rounded_below 950 a.confidence _ h,
              inr (
                quote_verified-IsVerified fold a.method a.evidence_quote text v,
                not_stranger-IsSeated roster a.council_member_id st,
              ),
              elim d [
                | inl k ↦ inl (rounded_below 750 a.confidence _ k)
                | inr w ↦
                    let (q, n) = both_true _ _ w in
                    inr (quote_verified-IsVerified fold a.method _ text q, same_text_differ _ _ n)
              ],
            )
          ]
