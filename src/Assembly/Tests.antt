-- ===== src/Assembly/Tests.antt =====
-- build_rows on short timelines.
use docket_pub.Prelude.{[], ℕ, ◌≡◌, ◌↔◌, refl, true, false, none, some, List, ◌∷◌, codes, map, All}
use docket_pub.Discrepancies.Types.{
  Category, Severity, Origin, Discrepancy, approved, exact, missing, Table,
}
use docket_pub.Discrepancies.Citations.{
  cite, citation_match_for, is_blank, cite_transcript, cite_minutes, strip,
}
use docket_pub.Discrepancies.Recompare.{inserted_row, reconcile}
use docket_pub.Discrepancies.Recompare.Citing.{WasThere}
use docket_pub.Alignment.Types.{Event, EventType, Scope, Detail, Candidate, CandidateKind}
use docket_pub.Assembly.Types.{Context, Verdict, HuntedDiscrepancy}
use docket_pub.Assembly.Rows.{vote_outcome_rows, verdict_rows, base, model_category}
use docket_pub.Assembly.Hunted.{
  anchors_for, anchor_by_items, anchor_anywhere, anchor_minutes, anchor_transcript, hunted_rows,
  hunted_row, taken_by, is_folded, is_unanchored,
}
use docket_pub.Assembly.Nearest.{shared_event}
use docket_pub.Assembly.Build.{build_rows, aligner_rows}
use docket_pub.Assembly.Build.Anchored.{compare_approves_nothing, hunted_unanchored}

abbrev no_detail : Detail
no_detail = record {
  items = [];
  action = none;
  to_date = none;
  as_stated = none;
  what_changed = none;
  result = none;
  yeas = none;
  nays = none;
  abstentions = none;
  stated_reason = none;
  statute_cite = none;
  kind = none;
  ruling = none;
  unlisted_item = none;
  quote = none;
}

abbrev motion_on : ℕ → ℕ → Event
motion_on n ref = record {
  id = n;
  seq = n;
  event_type = EventType.motion;
  scope = Scope.item;
  item_refs = ref ∷ [];
  actor_member_id = none;
  actor_text = none;
  detail = no_detail;
  start_s = none;
  page = none;
  char_offset = none;
}

-- Nothing is quoted anywhere.
abbrev ctx : Context
ctx = record {
  meeting_id = 7;
  compare_prompt_version = 300;
  find_citation = λ e s. record { kind = missing; start = 0; end = 0 };
  tt = record { joined = []; bounds = [] };
  minutes = none;
  confidence_of = λ s n. n;
  number_of = λ n. none;
  nine_tenths = 900;
}

abbrev hunted : HuntedDiscrepancy
hunted = record {
  category = Category.omission;
  severity = Severity.minor;
  title = codes "t";
  description = codes "d";
  agenda_item_refs = 4 ∷ [];
  transcript_quote = none;
  minutes_quote = none;
  confidence = 800;
}

abbrev omitted : Candidate
omitted = record {
  candidate_id = 1;
  kind = CandidateKind.omitted;
  category = Category.omission;
  transcript_event = some (motion_on 20 3);
  minutes_event = none;
  note = codes "n";
  item_refs = 3 ∷ [];
  vote_row = none;
}

abbrev verdict : Verdict
verdict = record {
  candidate_id = 1;
  is_real = true;
  category = none;
  severity = none;
  title = none;
  description = none;
  transcript_quote = none;
  minutes_quote = none;
  confidence = 700;
  dismiss_reason = none;
}

-- The only event on the finding's item is of the minutes, and stands as the transcript's.
minutes_event_as_transcript :
    map
      (λ r. r.transcript_event_id)
      (build_rows ctx [] [] (hunted ∷ []) (motion_on 20 3 ∷ []) (motion_on 30 4 ∷ []) none)
    ≡ some 30 ∷ []
unfolding build_rows aligner_rows vote_outcome_rows verdict_rows hunted_rows hunted_row taken_by
    is_folded anchors_for anchor_by_items anchor_anywhere anchor_minutes anchor_transcript
    shared_event base model_category cite is_blank cite_transcript cite_minutes citation_match_for
    strip
minutes_event_as_transcript = refl

-- A row that a person approved.
abbrev approved_row : Discrepancy
approved_row =
    record (inserted_row 1 (
      base ctx Category.wording Severity.minor (codes "t") (codes "d") none none []
        Origin.aligner)) { citation_match = exact; review_state = approved }

abbrev table : Table
table = record { rows = approved_row ∷ []; next_id = 2 }

compare_approves_nothing_example :
    All
      (WasThere table.rows)
      (reconcile
        (λ a b. 0)
        10
        7
        false
        (build_rows ctx
          (omitted ∷ [])
          (verdict ∷ [])
          (hunted ∷ [])
          (motion_on 20 3 ∷ [])
          (motion_on 30 4 ∷ [])
          none)
        table).table.rows
compare_approves_nothing_example =
    compare_approves_nothing ctx (motion_on 20 3 ∷ []) (motion_on 30 4 ∷ []) (λ a b. 0) 10 false
      (omitted ∷ []) (verdict ∷ []) (hunted ∷ []) none table

abbrev no_events : List Event
no_events = []

hunted_unanchored_example :
    (is_unanchored (anchors_for (motion_on 20 3 ∷ []) (motion_on 30 4 ∷ []) ctx hunted (4 ∷ []))
      ≡ true)
    ↔ ((motion_on 20 3 ∷ [] ≡ no_events) × (motion_on 30 4 ∷ [] ≡ no_events))
hunted_unanchored_example =
    hunted_unanchored ctx (motion_on 20 3 ∷ []) (motion_on 30 4 ∷ []) hunted (4 ∷ [])
