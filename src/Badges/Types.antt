-- ===== src/Badges/Types.antt =====
-- The rows of agenda_item_badges and agenda_item_badges_audit, and the columns of agenda_items that
-- the scoring writes and the badges read. A confidence is a number of hundredths.
use docket_pub.Prelude.{
  ℕ, Bool, false, ◌&&◌, Option, List, [], ◌∷◌, ◌++◌, String, str_eq, Text, ◌==◌, any, if◌then◌else◌,
}
use docket_pub.Scoring.Facts.{Facts, Item, ActionType}
use docket_pub.Scoring.Floors.{ScoreOverrides}

pub data ProcessingStatus : Type 0 where
  pending procedural_skipped data_quality_skipped extracted rewritten badged : ProcessingStatus
  completed failed_retry failed_permanent cross_stage_conflict withdrawn : ProcessingStatus

unfoldable pub ProcessingStatus-discrete : Discrete ProcessingStatus
ProcessingStatus-discrete = hlevel

pub data AiConfidence : Type 0 where
  high medium low : AiConfidence

-- A row of agenda_items.
pub record Row : Type 0 where
  pub id : ℕ
  pub city_id : ℕ
  pub title : Option Text
  pub description : Option Text
  pub topic : Option Text
  pub dollars_amount : Option ℕ
  pub is_consent : Bool
  pub extracted_facts : Option Facts
  pub score_overrides : Option ScoreOverrides
  pub significance_score : Option ℕ
  pub consent_placement_score : Option ℕ
  pub ai_confidence : Option AiConfidence
  pub processing_status : ProcessingStatus

-- The item that the pipeline reads from its row.
unfoldable pub item_of : Row → Item
item_of r = record {
  title = r.title;
  description = r.description;
  dollars_amount = r.dollars_amount;
  is_consent = r.is_consent;
}

pub data Kind : Type 0 where
  process policy : Kind

pub data BadgeSource : Type 0 where
  deterministic llm both manual : BadgeSource

pub data Status : Type 0 where
  applied flagged rejected : Status

-- What a deterministic match records.
pub data Trigger : Type 0 where
  no_match : Trigger
  matched_keywords : List Text → Trigger
  matched_action_type : ActionType → Trigger
  matched_topic : Text → Trigger

-- matching_metadata
pub record Metadata : Type 0 where
  pub both : Bool
  pub llm_only : Bool
  pub trigger : Trigger

abbrev pub no_metadata : Metadata
no_metadata = record { both = false; llm_only = false; trigger = no_match }

pub record Badge : Type 0 where
  pub agenda_item_id : ℕ
  pub city_id : ℕ
  pub badge_slug : String
  pub kind : Kind
  pub confidence : ℕ
  pub source : BadgeSource
  pub matching_metadata : Metadata
  pub status : Status

-- A row of agenda_item_badges_audit that the commit writes; its action is 'flagged'.
pub record Audit : Type 0 where
  pub agenda_item_id : ℕ
  pub badge_slug : String

unfoldable pub has_badge : (item : ℕ) → (slug : String) → List Badge → Bool
has_badge item slug = any (λ b. b.agenda_item_id == item && str_eq b.badge_slug slug)

-- INSERT ... ON CONFLICT (agenda_item_id, badge_slug) DO NOTHING
unfoldable pub insert_badge : Badge → List Badge → List Badge
insert_badge b badges =
    if has_badge b.agenda_item_id b.badge_slug badges then badges else badges ++ b ∷ []
