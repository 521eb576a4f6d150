-- ===== src/Votes/Cues/Latest.antt =====
-- analysis/vote_matcher.py: item_index_for_vote against what its documentation says of cues in order.
use docket_pub.Prelude.{
  ℕ, zero, suc, ◌+◌, ◌≡◌, refl, sym, ◌≤◌, Bool, true, false, inl, inr, Option, none, some, List, [],
  ◌∷◌, leb, ltb, All, All-map, Option-cases, arith, Bool-cases, if◌then◌else◌,
}
use docket_pub.Discrepancies.Citations.{bisect_right}
use docket_pub.Alignment.Sequence.{bisect_left}
use docket_pub.Votes.Cues.{one_before, at, near_cue_s, step_back, item_index_for_vote}

-- Cues in ascending order.
abbrev pub Ascending : List ℕ → Type 0
Ascending [] = Unit
Ascending (c ∷ cs) = All (λ d. c ≤ d) cs × Ascending cs

-- The index of the last cue that passes, from that among the later ones.
unfoldable pub later_or : (passes : Bool) → Option ℕ → Option ℕ
later_or passes (some i) = some (suc i)
later_or true none = some 0
later_or false none = none

unfoldable pub last_index : (ℕ → Bool) → List ℕ → Option ℕ
unfolding later_or
last_index p [] = none
last_index p (c ∷ cs) = later_or (p c) (last_index p cs)

-- What the documentation says: the last cue at or before the vote; when the vote is near it and an
-- item has an earlier second, the last of those.
unfoldable pub documented_index : (second : ℕ) → List ℕ → (vote_timestamp : ℕ) → Option ℕ
documented_index second cues v = elim (last_index (λ c. leb c v) cues) [
  | none ↦ none
  | some i ↦
      if leb v (at cues i + near_cue_s second)
      then elim (last_index (λ c. ltb c (at cues i)) cues) [
        | none ↦ some i
        | some earlier ↦ some earlier
      ]
      else some i
]

none_later : (p : ℕ → Bool) (cs : List ℕ) → All (λ d. p d ≡ false) cs → last_index p cs ≡ none
unfolding last_index later_or
none_later p [] h = refl
none_later p (c ∷ cs) h = rw (last_index, none_later p cs h.1, h.0) refl

-- The count of the cues in front of which one more that passes stands.
counted : (n : ℕ) → some n ≡ later_or true (one_before n)
unfolding later_or
counted zero = refl
counted (suc n) = refl

one_before-bisect_right :
    (v : ℕ) (cs : List ℕ)
    → Ascending cs
    → one_before (bisect_right cs v) ≡ last_index (λ c. leb c v) cs
unfolding bisect_right last_index later_or
one_before-bisect_right v [] h = refl
one_before-bisect_right v (c ∷ cs) h = elim (Bool-cases (ltb v c)) [
  | inl e ↦
      let later =
        none_later (λ d. leb d v) cs
          (All-map (λ d. c ≤ d) (λ d. leb d v ≡ false) cs (λ d k. ground (arith, k, e)) h.0) in
      let out : leb c v ≡ false = ground (arith, e) in rw (e, later, out) refl
  | inr e ↦
      let out : leb c v ≡ true = ground (arith, e) in
      rw (e, out, sym (one_before-bisect_right v cs h.1)) (counted (bisect_right cs v))
]

one_before-bisect_left :
    (v : ℕ) (cs : List ℕ)
    → Ascending cs
    → one_before (bisect_left cs v) ≡ last_index (λ c. ltb c v) cs
unfolding bisect_left last_index later_or
one_before-bisect_left v [] h = refl
one_before-bisect_left v (c ∷ cs) h = elim (Bool-cases (ltb c v)) [
  | inr e ↦
      rw
        (
          e,
          none_later (λ d. ltb d v) cs
              (All-map (λ d. c ≤ d) (λ d. ltb d v ≡ false) cs (λ d k. ground (arith, k, e)) h.0),
        )
        refl
  | inl e ↦ rw (e, sym (one_before-bisect_left v cs h.1)) (counted (bisect_left cs v))
]

pushed :
    (b : Bool) (o : Option ℕ) (i : ℕ)
    → some (if b then (elim o [ some earlier ↦ earlier | none ↦ i ]) else i)
      ≡ (if b then (elim o [ none ↦ some i | some earlier ↦ some earlier ]) else some i)
pushed true none i = refl
pushed true (some e) i = refl
pushed false o i = refl

-- On cues in ascending order item_index_for_vote is the index that the documentation describes: the
-- last cue at or before the vote; or, when the vote is within fifteen seconds of that cue and a cue
-- has an earlier second, the last such cue; none when no cue is at or before the vote.
pub item_index-documented :
    (second : ℕ) (cues : List ℕ) (v : ℕ)
    → Ascending cues
    → item_index_for_vote second cues v ≡ documented_index second cues v
unfolding item_index_for_vote documented_index step_back
item_index-documented second cues v h = elim (Option-cases (last_index (λ c. leb c v) cues)) [
  | inl q ↦ rw (item_index_for_vote, documented_index, one_before-bisect_right v cues h, q) refl
  | inr (i, q) ↦
      rw
        (
          item_index_for_vote,
          documented_index,
          one_before-bisect_right v cues h,
          q,
          step_back,
          one_before-bisect_left (at cues i) cues h,
        )
        (pushed (leb v (at cues i + near_cue_s second)) (last_index (λ c. ltb c (at cues i)) cues)
          i)
]
