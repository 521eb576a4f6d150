-- ===== src/Alignment/Results.antt =====
-- ai/transcripts/aligner.py: canonical_result and _results_differ. `word` is Python's \w.
use docket_pub.Prelude.{
  ℕ, Bool, true, false, not, Option, none, some, [], ◌∷◌, Text, ◌==◌, if◌then◌else◌,
}
use docket_pub.Regex.{Regex, boundary, seq, any_of, found}
use docket_pub.Guard.Normalize.{normalize}

pub data Outcome : Type 0 where
  passes fails : Outcome

abbrev bounded : Regex → Regex
bounded r = seq boundary (seq r boundary)

unfoldable pub none_words : Regex
none_words = bounded (
    any_of "carried over" (
      "carried forward" ∷ "tabled" ∷ "withdrawn" ∷ "postponed" ∷ "continued" ∷ "deferred"
      ∷ "no action" ∷ []))

unfoldable pub fail_words : Regex
fail_words = bounded (
    any_of "not adopted" (
      "not approved" ∷ "not carried" ∷ "not granted" ∷ "fail" ∷ "fails" ∷ "failed" ∷ "deny"
      ∷ "denies" ∷ "denied" ∷ "denial" ∷ "defeat" ∷ "defeats" ∷ "defeated" ∷ "reject" ∷ "rejects"
      ∷ "rejected" ∷ "rejection" ∷ "lost" ∷ []))

unfoldable pub pass_words : Regex
pass_words = bounded (
    any_of "adopted" (
      "approve" ∷ "approved" ∷ "pass" ∷ "passes" ∷ "passed" ∷ "carried" ∷ "granted" ∷ "prevail"
      ∷ "prevails" ∷ "prevailed" ∷ "sustained" ∷ []))

abbrev pub same_outcome : Outcome → Outcome → Bool
same_outcome passes passes = true
same_outcome fails fails = true
same_outcome _ _ = false

module _ (fold : ℕ → Text) (word : ℕ → Bool) where
  abbrev text_of : Option Text → Text
  text_of none = []
  text_of (some s) = s

  -- The result that a normalized text names; the empty text names none.
  unfoldable pub outcome_named : Text → Option Outcome
  outcome_named [] = none
  outcome_named (c ∷ cs) =
      let n = c ∷ cs in
      if found word none_words n
      then none
      else if found word fail_words n
      then some fails
      else if found word pass_words n
      then some passes
      else none

  unfoldable pub canonical_result : Option Text → Option Outcome
  canonical_result s = outcome_named (normalize fold (text_of s))

  abbrev outcomes_differ : Option Outcome → Option Outcome → Bool
  outcomes_differ (some a) (some b) = not (same_outcome a b)
  outcomes_differ _ _ = false

  unfoldable pub results_differ : Option Text → Option Text → Bool
  results_differ a b = outcomes_differ (canonical_result a) (canonical_result b)

-- `a is not None and b is not None and a != b`
abbrev pub counts_differ : Option ℕ → Option ℕ → Bool
counts_differ (some a) (some b) = not (a == b)
counts_differ _ _ = false
