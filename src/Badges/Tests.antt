-- ===== src/Badges/Tests.antt =====
-- The badges of one item.
use docket_pub.Prelude.{
  ℕ, ◌+◌, ◌≡◌, refl, Bool, true, false, ◌&&◌, ◌||◌, Option, none, some, [], ◌∷◌, map, Text, codes,
  leb, ◌==◌, if◌then◌else◌,
}
use docket_pub.Regex.{fold, found}
use docket_pub.Scoring.Facts.{FundingSource, ProcurementMethod, ActionType, Facts, Rewrite}
use docket_pub.Scoring.Floors.{ScoreOverrides}
use docket_pub.Votes.Words.{Unicode}
use docket_pub.Badges.Types.{
  Row, item_of, high, extracted, completed, Badge, process, manual, rejected, no_metadata,
}
use docket_pub.Badges.Process.{compute_on_write_process_badges, emergency_title, emergency_prefix}
use docket_pub.Badges.Process.Agree.{queried_slugs, on_write_agrees}
use docket_pub.Badges.Policy.{EnabledBadge, phrase}
use docket_pub.Badges.Write.{Tables, finalized, finalize_from_rewrite}

-- The ASCII part of Unicode.
abbrev is_digit : ℕ → Bool
is_digit c = leb b'0' c && leb c b'9'

abbrev ascii : Unicode
ascii = record {
  lower = map (λ c. if leb b'A' c && leb c b'Z' then c + 32 else c);
  word = λ c. is_digit c || (leb b'a' c && leb c b'z') || (leb b'A' c && leb c b'Z') || c == b'_';
  digit = is_digit;
}

abbrev no_search : Text → Text → Option Bool
no_search _ _ = none

abbrev title : Text
title = codes "Emergency repair of a blighted house"

abbrev row : Row
row = record {
  id = 8;
  city_id = 1;
  title = some title;
  description = none;
  topic = none;
  dollars_amount = none;
  is_consent = true;
  extracted_facts = none;
  score_overrides = none;
  significance_score = none;
  consent_placement_score = none;
  ai_confidence = none;
  processing_status = extracted;
}

abbrev facts : Facts
facts = record {
  funding_source = FundingSource.unknown;
  counterparty = none;
  procurement_method = ProcurementMethod.no_bid;
  action_type = ActionType.demolition;
  parcels_affected = none;
  acres_affected = none;
}

abbrev rewrite : Rewrite
rewrite = record {
  is_substantive = true;
  significance_score = some 50;
  consent_placement_score = some 20;
  suggested_badge_slugs = "blight" ∷ "unknown_badge" ∷ [];
}

abbrev scores : ScoreOverrides
scores = record {
  original_ai_significance = some 50;
  final_significance = some 50;
  original_ai_consent = some 20;
  final_consent = some 20;
  triggers = [];
}

abbrev blight : EnabledBadge
blight = record {
  slug = "blight";
  matcher_hints = (record {
    excluded_action_types = [];
    excluded_phrases = [];
    keywords = phrase (codes "weeds") ∷ [];
    action_types = [];
    topics = [];
  });
}

abbrev by_hand : Badge
by_hand = record {
  agenda_item_id = 8;
  city_id = 1;
  badge_slug = "sole_source";
  kind = process;
  confidence = 100;
  source = manual;
  matching_metadata = no_metadata;
  status = rejected;
}

abbrev tables : Tables
tables = record { items = row ∷ []; badges = by_hand ∷ []; audits = [] }

titles_agree : found ascii.word emergency_prefix title ≡ found ascii.word emergency_title title
unfolding found fold
titles_agree = refl

-- A title on which the two searches differ.
underscored :
    (found ascii.word emergency_prefix (codes "EMERGENCY_2026 repair") ≡ true)
    × (found ascii.word emergency_title (codes "EMERGENCY_2026 repair") ≡ false)
unfolding found fold
underscored = (refl, refl)

abbrev behind : Option Tables
behind =
    finalize_from_rewrite 10 [] ascii no_search (blight ∷ []) row facts rewrite high none tables

abbrev tables_of : Option Tables → Tables
tables_of none = tables
tables_of (some t) = t

on_write_agrees_example :
    compute_on_write_process_badges ascii.word 10 (item_of row) facts scores (some high)
    ≡ queried_slugs ascii.word 10 (finalized facts scores high completed row)
on_write_agrees_example = on_write_agrees ascii.word 10 row facts scores high titles_agree
