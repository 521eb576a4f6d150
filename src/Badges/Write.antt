-- ===== src/Badges/Write.antt =====
-- ai/pipeline.py: finalize_from_rewrite, from the floors to the commit.
pub mod Kept
use docket_pub.Prelude.{
  ℕ, Bool, true, false, ◌&&◌, not, Option, none, some, List, [], ◌∷◌, ◌++◌, map, String, Text, ◌==◌,
  any, if◌then◌else◌,
}
use mathlib.Core.Bool.{decide}
use docket_pub.Scoring.Facts.{Facts, Rewrite}
use docket_pub.Scoring.Floors.{ScoreOverrides, Override, apply_score_floors}
use docket_pub.Scoring.Reconcile.{
  Action, accept, retry_stage2_with_override, mark_cross_stage_conflict, reconcile_stages,
}
use docket_pub.Votes.Words.{Unicode}
use docket_pub.Badges.Types.{
  Row, item_of, AiConfidence, ProcessingStatus, completed, cross_stage_conflict,
  ProcessingStatus-discrete, policy, Status, flagged, Badge, Audit, has_badge, insert_badge,
}
use docket_pub.Badges.Process.{compute_on_write_process_badges, process_badge}
use docket_pub.Badges.Policy.{EnabledBadge, Decided, compute_policy_badges}

-- The tables that the commit writes.
pub record Tables : Type 0 where
  pub items : List Row
  pub badges : List Badge
  pub audits : List Audit

unfoldable pub same_status : ProcessingStatus → ProcessingStatus → Bool
unfolding ProcessingStatus-discrete decide
same_status a b = decide (ProcessingStatus-discrete a b)

unfoldable pub status_of : Action → ProcessingStatus
status_of accept = completed
status_of retry_stage2_with_override = completed
status_of mark_cross_stage_conflict = cross_stage_conflict

-- expected_status IS NULL OR processing_status = expected_status
unfoldable pub is_expected : Option ProcessingStatus → Row → Bool
is_expected none r = true
is_expected (some s) r = same_status r.processing_status s

unfoldable pub finalized : Facts → ScoreOverrides → AiConfidence → ProcessingStatus → Row → Row
finalized facts scores confidence status r = record r {
  extracted_facts = some facts;
  score_overrides = some scores;
  significance_score = scores.final_significance;
  consent_placement_score = scores.final_consent;
  ai_confidence = some confidence;
  processing_status = status;
}

unfoldable pub policy_badge : (item city : ℕ) → Decided → Badge
policy_badge item city d = record {
  agenda_item_id = item;
  city_id = city;
  badge_slug = d.slug;
  kind = policy;
  confidence = d.confidence;
  source = d.source;
  matching_metadata = d.metadata;
  status = d.status;
}

unfoldable pub is_flagged : Status → Bool
is_flagged flagged = true
is_flagged _ = false

unfoldable pub insert_process : (item city : ℕ) → List String → List Badge → List Badge
insert_process item city [] badges = badges
insert_process item city (s ∷ ss) badges =
    insert_process item city ss (insert_badge (process_badge item city s) badges)

-- The loop over the policy badges, with the audit of those that were flagged and inserted.
unfoldable pub insert_policies :
    (item city : ℕ) → List Decided → List Badge × List Audit → List Badge × List Audit
insert_policies item city [] acc = acc
insert_policies item city (d ∷ ds) (badges, audits) =
    let is_new = not (has_badge item d.slug badges) in
    insert_policies item city ds (
      insert_badge (policy_badge item city d) badges,
      if is_flagged d.status && is_new
          then audits ++ record { agenda_item_id = item; badge_slug = d.slug } ∷ []
          else audits,
    )

-- expected_status is not None
abbrev is_stated : Option ProcessingStatus → Bool
is_stated none = false
is_stated (some _) = true

-- A raise rolls the transaction back.
unfoldable pub commit_unless : (raises : Bool) → Tables → Option Tables
commit_unless true t = none
commit_unless false t = some t

module _ (unit : ℕ) (floor_overrides : List Override) (u : Unicode)
    (search : (pattern text : Text) → Option Bool) (enabled : List EnabledBadge) where
  -- The rows behind the commit; none when it is rolled back, because the row has another status than
  -- the one expected.
  unfoldable pub finalize_from_rewrite :
      (row : Row)
      → Facts
      → Rewrite
      → AiConfidence
      → (expected_status : Option ProcessingStatus) → Tables
      → Option Tables
  finalize_from_rewrite row facts rewrite confidence expected t =
      let item = item_of row in
      let overrides =
        apply_score_floors unit floor_overrides row.city_id item facts rewrite u.word in
      let status = status_of (reconcile_stages u.word facts rewrite item true).action in
      let is_hit = λ (r : Row). r.id == row.id && is_expected expected r in
      let items =
        map (λ r. if is_hit r then finalized facts overrides confidence status r else r) t.items in
      let processed =
        insert_process row.id row.city_id
          (compute_on_write_process_badges u.word unit item facts overrides (some confidence))
          t.badges in
      let (badges, audits) =
        insert_policies row.id row.city_id
          (compute_policy_badges u search row.topic item facts rewrite enabled)
          (processed, t.audits) in
      commit_unless (is_stated expected && not (any is_hit t.items))
        (record { items = items; badges = badges; audits = audits })
