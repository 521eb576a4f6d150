-- ===== src/Votes/Cues.antt =====
-- analysis/vote_matcher.py: item_index_for_vote and compute_confidence. A second is `second` units.
pub mod Latest
use docket_pub.Prelude.{
  ℕ, zero, suc, ◌+◌, ◌*◌, ◌-◌, ◌/◌, Bool, Option, none, some, List, [], ◌∷◌, leb, ltb,
  if◌then◌else◌,
}
use docket_pub.Discrepancies.Citations.{bisect_right}
use docket_pub.Alignment.Sequence.{bisect_left}

-- k - 1, where it is an index.
abbrev pub one_before : ℕ → Option ℕ
one_before zero = none
one_before (suc k) = some k

abbrev pub at : List ℕ → ℕ → ℕ
at [] i = 0
at (c ∷ cs) zero = c
at (c ∷ cs) (suc i) = at cs i

module _ (second : ℕ) where
  abbrev pub near_cue_s : ℕ
  near_cue_s = 15 * second

  -- The step back from the cue at `idx`.
  unfoldable pub step_back : List ℕ → (vote_timestamp idx : ℕ) → ℕ
  step_back cues v idx =
      if leb v (at cues idx + near_cue_s)
      then elim (one_before (bisect_left cues (at cues idx))) [
        | some earlier ↦ earlier
        | none ↦ idx
      ]
      else idx

  unfoldable pub item_index_for_vote : List ℕ → (vote_timestamp : ℕ) → Option ℕ
  item_index_for_vote cues v = elim (one_before (bisect_right cues v)) [
    | none ↦ none
    | some idx ↦ some (step_back cues v idx)
  ]

  -- From the second of the item and that of the vote, whose difference the code takes for the gap.
  -- Half of 1.0, 0.8, 0.5 and 0.3 is a number of hundredths.
  unfoldable pub compute_confidence : (cue vote_timestamp : ℕ) → (needs_review : Bool) → ℕ
  compute_confidence cue v review =
      let gap = v - cue in
      let base =
        if ltb v cue
        then 0
        else if ltb gap (120 * second)
        then 100
        else if ltb gap (600 * second)
        then 80
        else if ltb gap (1800 * second)
        then 50
        else 30 in
      if review then base / 2 else base
