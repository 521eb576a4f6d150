-- ===== src/Scoring/Facts.antt =====
-- The values that scoring reads: the Stage 1 facts (ai/extraction_schema.py), the Stage 2 rewrite
-- (ai/rewrite_schema.py) and the columns of the agenda item. Amounts of money are in cents, since
-- the column is NUMERIC(15, 2). Scores and acreages are Python floats: each is a whole number of
-- units, `unit` to the point, which for unit = 2 ^ 1074 holds every double of the range exactly.
use mathlib.Core.Bool.{decide}
use docket_pub.Prelude.{
  ℕ, ◌*◌, Bool, true, false, Option, none, some, List, [], ◌∷◌, ◌++◌, String, Text, leb,
}

pub data FundingSource : Type 0 where
  general_fund arpa esser cares state_grant federal_grant bond special_tax : FundingSource
  private_money sponsorship tif capital_improvement mixed unknown : FundingSource

pub data ProcurementMethod : Type 0 where
  competitive sole_source no_bid rfp emergency unknown not_applicable : ProcurementMethod

pub data ActionType : Type 0 where
  contract_award contract_amendment ordinance resolution : ActionType
  appointment_executive appointment_board appointment_advisory : ActionType
  zoning demolition weed_abatement tax_abatement settlement emergency_procurement : ActionType
  appropriation budget_amendment proclamation public_hearing_set : ActionType
  annexation liquor_license right_of_way bid_rejection other : ActionType

unfoldable pub ActionType-discrete : Discrete ActionType
ActionType-discrete = hlevel

-- `a == b` on action types.
unfoldable pub same_action : ActionType → ActionType → Bool
unfolding ActionType-discrete decide
same_action a b = decide (ActionType-discrete a b)

unfoldable pub is_sole_source : ProcurementMethod → Bool
is_sole_source ProcurementMethod.sole_source = true
is_sole_source _ = false

-- `source not in ('unknown', None)`
unfoldable pub is_known_source : FundingSource → Bool
is_known_source FundingSource.unknown = false
is_known_source _ = true

pub record Facts : Type 0 where
  pub funding_source : FundingSource
  pub counterparty : Option Text
  pub procurement_method : ProcurementMethod
  pub action_type : ActionType
  pub parcels_affected : Option ℕ
  pub acres_affected : Option ℕ

pub record Rewrite : Type 0 where
  pub is_substantive : Bool
  pub significance_score : Option ℕ
  pub consent_placement_score : Option ℕ
  pub suggested_badge_slugs : List String

pub record Item : Type 0 where
  pub title : Option Text
  pub description : Option Text
  pub dollars_amount : Option ℕ
  pub is_consent : Bool

-- `x or 0`
abbrev pub or_zero : Option ℕ → ℕ
or_zero none = 0
or_zero (some n) = n

-- `s or ''`
abbrev pub or_empty : Option Text → Text
or_empty none = []
or_empty (some s) = s

-- `(x or 0) >= n`
abbrev pub at_least : Option ℕ → ℕ → Bool
at_least x n = leb n (or_zero x)

-- A sum of whole dollars, in cents.
abbrev pub dollars : ℕ → ℕ
dollars n = n * 100

-- f"{i.title or ''} {i.description or ''}"
unfoldable pub haystack : Item → Text
haystack i = or_empty i.title ++ b' ' ∷ or_empty i.description
