-- ===== src/Badges/Process.antt =====
-- ai/badges_process.py: compute_on_write_process_badges, and the four queries that it mirrors. A
-- score is a number of units, `unit` to the point; `word` is Python's \w and stands for the word
-- characters of PostgreSQL as well.
pub mod Agree
use docket_pub.Prelude.{
  ℕ, ◌*◌, Bool, true, false, ◌&&◌, ◌||◌, Option, none, some, List, [], ◌∷◌, ◌++◌, String, codes,
  leb, any, if◌then◌else◌,
}
use mathlib.Core.Bool.{decide}
use docket_pub.Regex.{Regex, boundary, seq, alt, lit, found}
use docket_pub.Scoring.Facts.{Facts, Item, ProcurementMethod, ActionType, same_action, or_empty}
use docket_pub.Scoring.Floors.{ScoreOverrides, consent_placement, same_field}
use docket_pub.Badges.Types.{
  Row, AiConfidence, high, medium, completed, ProcessingStatus-discrete, Badge, process,
  deterministic, applied, no_metadata, insert_badge,
}

-- procurement_method in ('sole_source', 'no_bid')
unfoldable pub is_unbid : ProcurementMethod → Bool
is_unbid ProcurementMethod.sole_source = true
is_unbid ProcurementMethod.no_bid = true
is_unbid _ = false

unfoldable pub is_emergency : ProcurementMethod → Bool
is_emergency ProcurementMethod.emergency = true
is_emergency _ = false

-- ai_confidence in ('high', 'medium')
unfoldable pub is_confident : Option AiConfidence → Bool
is_confident (some high) = true
is_confident (some medium) = true
is_confident _ = false

-- x is not None and x <= n
abbrev pub is_at_most : Option ℕ → ℕ → Bool
is_at_most none n = false
is_at_most (some x) n = leb x n

abbrev emergency_words : Regex
emergency_words =
    alt (lit (codes "emergency")) (alt (lit (codes "exigent")) (lit (codes "expedited")))

-- \b(emergency|exigent|expedited)\b
abbrev pub emergency_title : Regex
emergency_title = seq boundary (seq emergency_words boundary)

-- \m(emergency|exigent|expedited): what follows \m is a letter, so \m is \b.
abbrev pub emergency_prefix : Regex
emergency_prefix = seq boundary emergency_words

abbrev pub any_consent_floor : Option ScoreOverrides → Bool
any_consent_floor none = false
any_consent_floor (some o) = any (λ t. same_field t.field consent_placement) o.triggers

-- The slugs that are there when their tests hold.
abbrev pub slug_if : Bool → String → List String
slug_if true slug = slug ∷ []
slug_if false slug = []

abbrev pub process_badge : (item city : ℕ) → String → Badge
process_badge item city slug = record {
  agenda_item_id = item;
  city_id = city;
  badge_slug = slug;
  kind = process;
  confidence = 100;
  source = deterministic;
  matching_metadata = no_metadata;
  status = applied;
}

module _ (word : ℕ → Bool) (unit : ℕ) where
  -- Each badge has confidence 1.0.
  unfoldable pub compute_on_write_process_badges :
      Item → Facts → ScoreOverrides → Option AiConfidence → List String
  compute_on_write_process_badges item facts scores confidence =
      slug_if
        (item.is_consent
          && is_at_most scores.final_consent (3 * unit)
          && (is_confident confidence || any_consent_floor (some scores)))
        "hidden_on_consent"
      ++ slug_if (is_unbid facts.procurement_method) "sole_source"
      ++ slug_if (same_action facts.action_type ActionType.settlement) "legal_settlement"
      ++ slug_if
          (same_action facts.action_type ActionType.emergency_procurement
            || is_emergency facts.procurement_method
            || found word emergency_title (or_empty item.title))
          "emergency_action"

  unfoldable pub is_completed : Row → Bool
  unfolding ProcessingStatus-discrete decide
  is_completed r = decide (ProcessingStatus-discrete r.processing_status completed)

  abbrev of_facts : (Facts → Bool) → Option Facts → Bool
  of_facts p none = false
  of_facts p (some f) = p f

  -- The WHERE clauses.
  unfoldable pub hidden_on_consent : Row → Bool
  hidden_on_consent r =
      r.is_consent
      && is_at_most r.consent_placement_score (3 * unit)
      && is_completed r
      && (any_consent_floor r.score_overrides || is_confident r.ai_confidence)

  unfoldable pub sole_source : Row → Bool
  sole_source r = of_facts (λ f. is_unbid f.procurement_method) r.extracted_facts && is_completed r

  unfoldable pub legal_settlement : Row → Bool
  legal_settlement r =
      of_facts (λ f. same_action f.action_type ActionType.settlement) r.extracted_facts
      && is_completed r

  unfoldable pub emergency_action : Row → Bool
  emergency_action r =
      (of_facts (λ f. same_action f.action_type ActionType.emergency_procurement) r.extracted_facts
        || of_facts (λ f. is_emergency f.procurement_method) r.extracted_facts
        || found word emergency_prefix (or_empty r.title))
      && is_completed r

  -- INSERT ... SELECT ... WHERE
  unfoldable pub run_query : String → (Row → Bool) → List Row → List Badge → List Badge
  run_query slug p [] badges = badges
  run_query slug p (r ∷ rs) badges =
      run_query slug p rs
        (if p r then insert_badge (process_badge r.id r.city_id slug) badges else badges)

  -- HIDDEN_ON_CONSENT_SQL, SOLE_SOURCE_SQL, LEGAL_SETTLEMENT_SQL and EMERGENCY_ACTION_SQL, in the
  -- order of PROCESS_BADGE_QUERIES.
  unfoldable pub run_fact_queries : List Row → List Badge → List Badge
  run_fact_queries rows badges = run_query "emergency_action" emergency_action rows (
      run_query "legal_settlement" legal_settlement rows (
        run_query "sole_source" sole_source rows
          (run_query "hidden_on_consent" hidden_on_consent rows badges)))
