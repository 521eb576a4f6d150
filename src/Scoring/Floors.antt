-- ===== src/Scoring/Floors.antt =====
-- ai/floors.py: the rule tables, the per-city override and apply_score_floors.
pub mod Monotone
pub mod Bounds
pub mod Audit
use docket_pub.Prelude.{
  ℕ, ◌*◌, Bool, true, false, ◌&&◌, ◌||◌, Option, none, some, List, [], ◌∷◌, ◌++◌, String, str_eq,
  ltb, ◌==◌, any, find?, if◌then◌else◌,
}
use docket_pub.Scoring.Facts.{
  Facts, Rewrite, Item, ActionType, same_action, is_sole_source, at_least, dollars, haystack,
}
use docket_pub.Scoring.Patterns.{surveillance_alpr, police_oversight, eminent_domain, mentions}

pub data ScoreField : Type 0 where
  significance consent_placement : ScoreField

pub record FloorTrigger : Type 0 where
  pub name : String
  pub predicate : Item → Facts → Rewrite → Bool
  pub score_field : ScoreField
  pub bound : ℕ

abbrev floor : String → (Item → Facts → Bool) → ℕ → FloorTrigger
floor n p b = record { name = n; predicate = λ i f _. p i f; score_field = significance; bound = b }

abbrev ceiling : String → (Item → Facts → Bool) → ℕ → FloorTrigger
ceiling n p b = record {
  name = n;
  predicate = λ i f _. p i f;
  score_field = consent_placement;
  bound = b;
}

-- `unit` is the number of units in one acre, as in one point of a score.
unfoldable pub significance_floors : (unit : ℕ) → List FloorTrigger
significance_floors unit =
    floor "red_plus_10m" (λ i f. at_least i.dollars_amount (dollars 10_000_000)) 9
    ∷ floor "red_1m" (λ i f. at_least i.dollars_amount (dollars 1_000_000)) 7
    ∷ floor "orange_sole_source"
        (λ i f. at_least i.dollars_amount (dollars 250_000) && is_sole_source f.procurement_method)
        7
    ∷ floor "orange_settlement"
        (λ i f.
          at_least i.dollars_amount (dollars 250_000)
          && same_action f.action_type ActionType.settlement)
        8
    ∷ floor "yellow_sole_source"
        (λ i f. at_least i.dollars_amount (dollars 50_000) && is_sole_source f.procurement_method) 6
    ∷ floor "yellow_settlement"
        (λ i f.
          at_least i.dollars_amount (dollars 50_000)
          && same_action f.action_type ActionType.settlement)
        6
    ∷ floor "any_settlement" (λ i f. same_action f.action_type ActionType.settlement) 6
    ∷ floor "zoning_large"
        (λ i f.
          same_action f.action_type ActionType.zoning
          && (at_least f.parcels_affected 5 || at_least f.acres_affected (10 * unit)))
        7
    ∷ floor "emergency_proc" (λ i f. same_action f.action_type ActionType.emergency_procurement) 7
    ∷ floor "appt_executive" (λ i f. same_action f.action_type ActionType.appointment_executive) 7
    ∷ floor "appt_board" (λ i f. same_action f.action_type ActionType.appointment_board) 5
    ∷ floor "tax_abatement_orange"
        (λ i f.
          same_action f.action_type ActionType.tax_abatement
          && at_least i.dollars_amount (dollars 250_000))
        7
    ∷ []

-- The predicate of the two surveillance rules, less the test for consent.
unfoldable pub surveillance : (ℕ → Bool) → Item → Rewrite → Bool
surveillance word i a =
    mentions word surveillance_alpr (haystack i)
    || any (λ s. str_eq s "public_safety_tech_privacy") a.suggested_badge_slugs

unfoldable pub subject_matter_floors : (word : ℕ → Bool) → List FloorTrigger
subject_matter_floors word =
    record {
      name = "surveillance_alpr_significance";
      predicate = λ i f a. surveillance word i a;
      score_field = significance;
      bound = 7;
    }
    ∷ record {
      name = "surveillance_alpr_consent";
      predicate = λ i f a. i.is_consent && surveillance word i a;
      score_field = consent_placement;
      bound = 2;
    }
    ∷ floor "police_oversight_significance" (λ i f. mentions word police_oversight (haystack i)) 8
    ∷ ceiling "police_oversight_consent"
        (λ i f. i.is_consent && mentions word police_oversight (haystack i)) 2
    ∷ floor "eminent_domain_significance" (λ i f. mentions word eminent_domain (haystack i)) 8
    ∷ ceiling "eminent_domain_consent"
        (λ i f. i.is_consent && mentions word eminent_domain (haystack i)) 2
    ∷ []

unfoldable pub consent_placement_ceilings : List FloorTrigger
consent_placement_ceilings =
    ceiling "red_consent" (λ i f. at_least i.dollars_amount (dollars 1_000_000) && i.is_consent) 2
    ∷ ceiling "sole_source_consent" (λ i f. is_sole_source f.procurement_method && i.is_consent) 2
    ∷ ceiling "settlement_consent"
        (λ i f. same_action f.action_type ActionType.settlement && i.is_consent) 1
    ∷ ceiling "appt_executive_consent"
        (λ i f. same_action f.action_type ActionType.appointment_executive && i.is_consent) 2
    ∷ []

-- A row of city_score_floor_overrides; (city_id, trigger_name) is its primary key.
pub record Override : Type 0 where
  pub city_id : ℕ
  pub trigger_name : String
  pub override_threshold_amount : Option ℕ
  pub override_min_score : Option ℕ

abbrev or_else : {A : Type 0} → Option A → A → A
or_else none d = d
or_else (some a) d = a

abbrev overridden : Option Override → Option ℕ → ℕ → Option ℕ × ℕ
overridden none threshold bound = (threshold, bound)
overridden (some row) threshold bound = (
  elim row.override_threshold_amount [ none ↦ threshold | some t ↦ some t ],
  or_else row.override_min_score bound,
)

-- _resolve_threshold, over the rows of the table. A score of the table is a whole number from 0 up.
unfoldable pub resolve_threshold : List Override → ℕ → String → Option ℕ → ℕ → Option ℕ × ℕ
resolve_threshold table city name threshold bound =
    overridden (find? (λ row. row.city_id == city && str_eq row.trigger_name name) table) threshold
      bound

-- An entry of the audit record.
pub record Fired : Type 0 where
  pub trigger : String
  pub field : ScoreField
  pub pre : Option ℕ
  pub post : ℕ

pub record ScoreOverrides : Type 0 where
  pub original_ai_significance : Option ℕ
  pub final_significance : Option ℕ
  pub original_ai_consent : Option ℕ
  pub final_consent : Option ℕ
  pub triggers : List Fired

abbrev pub same_field : ScoreField → ScoreField → Bool
same_field significance significance = true
same_field consent_placement consent_placement = true
same_field _ _ = false

-- The test of each loop: a floor has to be above the score, a ceiling below it.
abbrev pub beats : ScoreField → ℕ → Option ℕ → Bool
beats field bound none = true
beats significance bound (some score) = ltb score bound
beats consent_placement bound (some score) = ltb bound score

module _ (unit : ℕ) (table : List Override) (city : ℕ) (item : Item) (facts : Facts)
    (ai : Rewrite) where
  -- The bound that holds in this city, in units.
  unfoldable pub effective_bound : FloorTrigger → ℕ
  unfolding resolve_threshold
  effective_bound t = (resolve_threshold table city t.name none t.bound).1 * unit

  unfoldable pub fires : ScoreField → FloorTrigger → Bool
  fires field t = same_field t.score_field field && t.predicate item facts ai

  -- The body of each of the two loops, on the running score and the record of what fired.
  unfoldable pub apply_trigger :
      ScoreField → FloorTrigger → Option ℕ × List Fired → Option ℕ × List Fired
  apply_trigger field t (score, fired) =
      if fires field t && beats field (effective_bound t) score
      then (
        some (effective_bound t),
        fired
            ++ record { trigger = t.name; field = field; pre = score; post = effective_bound t }
              ∷ [],
      )
      else (score, fired)

  unfoldable pub apply_triggers :
      ScoreField → List FloorTrigger → Option ℕ × List Fired → Option ℕ × List Fired
  apply_triggers field [] acc = acc
  apply_triggers field (t ∷ ts) acc = apply_triggers field ts (apply_trigger field t acc)

  -- `word` is Python's \w.
  module _ (word : ℕ → Bool) where
    abbrev pub significance_rules : List FloorTrigger
    significance_rules = significance_floors unit ++ subject_matter_floors word

    abbrev pub consent_rules : List FloorTrigger
    consent_rules = consent_placement_ceilings ++ subject_matter_floors word

    unfoldable pub apply_score_floors : ScoreOverrides
    apply_score_floors =
        let (final_sig, fired) =
          apply_triggers significance significance_rules (ai.significance_score, []) in
        let (final_consent, fired') =
          apply_triggers consent_placement consent_rules (ai.consent_placement_score, fired) in
        record {
          original_ai_significance = ai.significance_score;
          final_significance = final_sig;
          original_ai_consent = ai.consent_placement_score;
          final_consent = final_consent;
          triggers = fired';
        }
