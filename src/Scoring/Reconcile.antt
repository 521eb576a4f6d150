-- ===== src/Scoring/Reconcile.antt =====
-- ai/reconcile.py: reconcile_stages.
pub mod Laws
use docket_pub.Prelude.{
  ℕ, Bool, true, false, not, Option, none, some, List, [], ◌∷◌, ◌++◌, Text, any, find?,
  if◌then◌else◌,
}
use docket_pub.Scoring.Facts.{
  Facts, Rewrite, Item, ActionType, FundingSource, same_action, is_known_source, at_least, dollars,
  haystack, or_zero,
}
use docket_pub.Scoring.Patterns.{Matter, matters, mentions}

-- HIGH_ATTENTION_ACTION_TYPES
abbrev pub high_attention_action_types : List ActionType
high_attention_action_types =
    ActionType.settlement ∷ ActionType.tax_abatement ∷ ActionType.annexation
    ∷ ActionType.emergency_procurement ∷ ActionType.liquor_license ∷ ActionType.right_of_way
    ∷ ActionType.zoning ∷ ActionType.appointment_executive ∷ ActionType.appointment_board ∷ []

-- The strings of `conflicts`.
pub data Conflict : Type 0 where
  has_counterparty has_funding_source yellow_tier_dollars : Conflict
  high_attention_action_type : ActionType → Conflict
  subject_matter_match : Matter → Conflict

pub data Action : Type 0 where
  accept retry_stage2_with_override mark_cross_stage_conflict : Action

-- The values that the override instruction quotes.
pub record Instruction : Type 0 where
  pub counterparty : Option Text
  pub funding : FundingSource
  pub action_type : ActionType
  pub dollars_amount : ℕ

pub record ReconciliationResult : Type 0 where
  pub action : Action
  pub conflicts : List Conflict
  pub override_instruction : Option Instruction

-- `if s:` on an optional string
unfoldable pub is_given : Option Text → Bool
is_given none = false
is_given (some []) = false
is_given (some (_ ∷ _)) = true

abbrev when : Bool → Conflict → List Conflict
when b c = if b then c ∷ [] else []

abbrev match_conflict : Option Matter → List Conflict
match_conflict none = []
match_conflict (some m) = subject_matter_match m ∷ []

-- `word` is Python's \w.
module _ (word : ℕ → Bool) (facts : Facts) (rewrite : Rewrite) (item : Item) where
  unfoldable pub is_high_attention : Bool
  is_high_attention = any (same_action facts.action_type) high_attention_action_types

  -- The loop over the patterns, which stops at the first that is found.
  unfoldable pub first_matter : Option Matter
  first_matter = find? (λ m. mentions word m (haystack item)) matters

  unfoldable pub conflicts_of : List Conflict
  conflicts_of =
      if not rewrite.is_substantive
      then when (is_given facts.counterparty) has_counterparty
        ++ (when (is_known_source facts.funding_source) has_funding_source
            ++ (when (at_least item.dollars_amount (dollars 50_000)) yellow_tier_dollars
                ++ (when is_high_attention (high_attention_action_type facts.action_type)
                    ++ match_conflict first_matter)))
      else []

  -- The instruction of the first retry.
  unfoldable pub instruction : Instruction
  instruction = record {
    counterparty = facts.counterparty;
    funding = facts.funding_source;
    action_type = facts.action_type;
    dollars_amount = or_zero item.dollars_amount;
  }

  abbrev decide_on : List Conflict → Bool → ReconciliationResult
  decide_on [] retried = record { action = accept; conflicts = []; override_instruction = none }
  decide_on (c ∷ cs) true = record {
    action = mark_cross_stage_conflict;
    conflicts = c ∷ cs;
    override_instruction = none;
  }
  decide_on (c ∷ cs) false = record {
    action = retry_stage2_with_override;
    conflicts = c ∷ cs;
    override_instruction = some instruction;
  }

  unfoldable pub reconcile_stages : (already_retried : Bool) → ReconciliationResult
  reconcile_stages already_retried = decide_on conflicts_of already_retried
