-- ===== src/Scoring/Tests.antt =====
-- ai/floors.py and ai/reconcile.py on concrete items.
use docket_pub.Prelude.{
  [], ℕ, ◌≡◌, ◌↔◌, ◌⊎◌, refl, Bool, true, false, ◌&&◌, ◌||◌, none, some, List, ◌∷◌, codes, leb,
}
use docket_pub.Regex.{found}
use docket_pub.Scoring.Facts.{
  FundingSource, ProcurementMethod, ActionType, Facts, Rewrite, Item, same_action, is_sole_source,
  haystack, is_known_source,
}
use docket_pub.Scoring.Patterns.{mentions, surveillance_alpr, police_oversight}
use docket_pub.Scoring.Floors.{
  significance, consent_placement, Override, apply_score_floors, apply_triggers, apply_trigger,
  effective_bound, fires, resolve_threshold, significance_floors, subject_matter_floors,
  consent_placement_ceilings, surveillance, significance_rules, consent_rules,
}
use docket_pub.Scoring.Floors.Bounds.{best, bounds, floors_eq_best}
use docket_pub.Scoring.Floors.Monotone.{Moves, floors_one_way}
use docket_pub.Scoring.Reconcile.{
  accept, reconcile_stages, conflicts_of, is_high_attention, first_matter, is_given,
}
use docket_pub.Scoring.Reconcile.Laws.{NoSubstance, accept_iff}

-- Python's \w on ASCII.
ascii_word : ℕ → Bool
ascii_word c =
    (leb b'a' c && leb c b'z')
    || (leb b'A' c && leb c b'Z')
    || (leb b'0' c && leb c b'9')
    || (leb b'_' c && leb c b'_')

-- A consent item that settles a suit for $300,000.
abbrev settlement_item : Item
settlement_item = record {
  title = some (codes "Settlement of claim");
  description = none;
  dollars_amount = some 30_000_000;
  is_consent = true;
}

abbrev settlement_facts : Facts
settlement_facts = record {
  funding_source = FundingSource.unknown;
  counterparty = some (codes "Doe");
  procurement_method = ProcurementMethod.unknown;
  action_type = ActionType.settlement;
  parcels_affected = none;
  acres_affected = none;
}

-- In units of a tenth: 4.5 and 6.
abbrev rewrite : Rewrite
rewrite = record {
  is_substantive = true;
  significance_score = some 45;
  consent_placement_score = some 60;
  suggested_badge_slugs = [];
}

abbrev procedural : Rewrite
procedural = record {
  is_substantive = false;
  significance_score = none;
  consent_placement_score = none;
  suggested_badge_slugs = [];
}

abbrev overrides : List Override
overrides =
    record {
      city_id = 1;
      trigger_name = "any_settlement";
      override_threshold_amount = some 5;
      override_min_score = some 9;
    }
    ∷ []

scoring : Unit {0}
unfolding apply_score_floors apply_triggers apply_trigger effective_bound fires resolve_threshold
    significance_floors subject_matter_floors consent_placement_ceilings surveillance same_action
    is_sole_source haystack mentions found reconcile_stages conflicts_of is_high_attention
    first_matter is_given is_known_source ascii_word
scoring = tt

settlement_scores :
    let out =
      apply_score_floors 10 overrides 1 settlement_item settlement_facts rewrite ascii_word in
    (out.final_significance ≡ some 90) × (out.final_consent ≡ some 10)
unfolding scoring
settlement_scores = (refl, refl)

-- The stems of the patterns end at \b, so the inflected word is not found.
stems_not_found :
    (mentions ascii_word surveillance_alpr (codes "FACIAL recognition pilot") ≡ false)
    × (mentions ascii_word surveillance_alpr (codes "Gunshot detection") ≡ false)
    × (mentions ascii_word police_oversight (codes "police accountability") ≡ false)
    × (mentions ascii_word surveillance_alpr (codes "Flock  cameras") ≡ true)
unfolding scoring
stems_not_found = (refl, refl, refl, refl)

floors_eq_best_example :
    let out =
      apply_score_floors 10 overrides 1 settlement_item settlement_facts rewrite ascii_word in
    (out.final_significance
      ≡ best significance (some 45) (
          bounds 10 overrides 1 settlement_item settlement_facts rewrite significance (
            significance_rules 10 overrides 1 settlement_item settlement_facts rewrite ascii_word)))
    × (out.final_consent
        ≡ best consent_placement (some 60) (
            bounds 10 overrides 1 settlement_item settlement_facts rewrite consent_placement
              (consent_rules 10 overrides 1 settlement_item settlement_facts rewrite ascii_word)))
floors_eq_best_example =
    floors_eq_best 10 overrides 1 settlement_item settlement_facts rewrite ascii_word

floors_one_way_example :
    let out =
      apply_score_floors 10 overrides 1 settlement_item settlement_facts rewrite ascii_word in
    Moves significance (some 45) out.final_significance
    × Moves consent_placement (some 60) out.final_consent
floors_one_way_example =
    floors_one_way 10 overrides 1 settlement_item settlement_facts rewrite ascii_word

accept_iff_example :
    ((reconcile_stages ascii_word settlement_facts rewrite settlement_item false).action ≡ accept)
    ↔ ((rewrite.is_substantive ≡ true)
        ⊎ NoSubstance ascii_word settlement_facts rewrite settlement_item)
accept_iff_example = accept_iff ascii_word settlement_facts rewrite settlement_item false
