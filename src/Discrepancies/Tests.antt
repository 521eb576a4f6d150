-- ===== src/Discrepancies/Tests.antt =====
-- services/discrepancies.py and the re-comparison of compare.py on small tables.
use docket_pub.Prelude.{
  [], ℕ, ◌+◌, ◌*◌, ◌≤◌, ◌<◌, ◌≡◌, ◌↔◌, ◌⊎◌, inl, inr, refl, true, false, none, some, List, ◌∷◌,
  Text, codes, arith, All, In, length,
}
use docket_pub.Discrepancies.Types.{
  ReviewState, proposed, approved, rejected, Category, Severity, exact, missing, Origin,
  Discrepancy, Table,
}
use docket_pub.Discrepancies.Citations.{
  Found, Spoken, transcript_text, join_spaces, is_heard, strip,
}
use docket_pub.Discrepancies.Citations.Offsets.{Cuts, bounds_cut}
use docket_pub.Discrepancies.Approval.{approve, reject, no_updates}
use docket_pub.Discrepancies.Approval.Edit.{Sources, edit_and_approve}
use docket_pub.Discrepancies.Approval.Guards.{OnOk, AllCited, actions_keep_citations}
use docket_pub.Discrepancies.Recompare.{NewRow, reconcile, write_rows, prepared}
use docket_pub.Discrepancies.Recompare.Policy.{protected_rows_stay}
use docket_pub.Discrepancies.Recompare.Present.{HasId}
use docket_pub.Discrepancies.Recompare.Citing.{reconcile_keeps_citations}
use docket_pub.Discrepancies.Recompare.Verdicts.{
  Unsigned, changed_pass_unapproves, Rejection, Stands, rejections_stand, every_row_counted,
}
use docket_pub.Discrepancies.Gate.{Reviewed, ship_gate, ship_gate_candidates, ship_gate_meetings}
use docket_pub.Discrepancies.Gate.Window.{window, count_approved, meetings_from, ship_gate-window}

abbrev row : ℕ → ReviewState → Discrepancy
row id state = record {
  id = id;
  meeting_id = 7;
  agenda_item_id = some 3;
  category = Category.wording;
  severity = Severity.minor;
  title = codes "amount";
  description = codes "differs";
  admin_title = none;
  admin_description = none;
  transcript_event_id = some 40;
  minutes_event_id = none;
  transcript_excerpt = some (codes "ten dollars");
  transcript_start_s = some 5;
  minutes_excerpt = none;
  minutes_page = none;
  citation_match = exact;
  confidence = some 900;
  origin = Origin.aligner;
  prompt_version = 200;
  review_state = state;
  previous_review_state = none;
  reject_reason = none;
  reviewed_at = none;
  reviewed_by = none;
  review_note = none;
}

abbrev table : Table
table = record { rows = row 1 approved ∷ row 2 proposed ∷ row 3 rejected ∷ []; next_id = 4 }

abbrev new_row : NewRow
new_row = record {
  meeting_id = 7;
  agenda_item_id = some 3;
  category = Category.wording;
  severity = Severity.material;
  title = codes "amount";
  description = codes "differs again";
  transcript_event_id = some 40;
  minutes_event_id = none;
  transcript_excerpt = some (codes "ten");
  transcript_start_s = some 6;
  minutes_excerpt = none;
  minutes_page = none;
  citation_match = missing;
  confidence = some 450;
  origin = Origin.aligner;
  review_state = proposed;
  reject_reason = none;
  prompt_version = 201;
}

abbrev nothing_found : Text → Text → Found
nothing_found _ _ = record { kind = missing; start = 0; end = 0 }

abbrev no_sources : Sources
no_sources = record { transcript = none; minutes = none }

abbrev alike : Text → Text → ℕ
alike _ _ = 10

table_cited : AllCited table.rows
table_cited = ((λ _ e. cc e), ((λ e. cc e), ((λ e. cc e), tt)))

actions_keep_citations_example :
    OnOk AllCited (approve 9 2 (codes "ann") none no_updates table.rows)
    × OnOk AllCited (reject 9 2 (codes "ann") (codes "no") table.rows)
    × OnOk AllCited (
        edit_and_approve nothing_found no_sources 9 2
          (codes "ann")
          (codes "t")
          (codes "d")
          none
          none
          table.rows)
actions_keep_citations_example =
    actions_keep_citations 9 2 (codes "ann") table.rows table_cited nothing_found no_sources
      (codes "t") (codes "d") none none none no_updates (codes "no")

protected_rows_stay_example :
    In (row 1 approved) (reconcile alike 10 7 false (new_row ∷ []) table).table.rows
protected_rows_stay_example =
    protected_rows_stay alike 10 7 false (new_row ∷ []) table (row 1 approved) (inr (refl, refl))
      ((λ _. refl), ((λ e. absurd (omega arith)), ((λ e. absurd (omega arith)), tt))) (inl refl)

reconcile_keeps_citations_example :
    AllCited (reconcile alike 10 7 true (new_row ∷ []) table).table.rows
reconcile_keeps_citations_example =
    reconcile_keeps_citations alike 10 7 true (new_row ∷ []) table ((λ e. cc e), tt) table_cited

changed_pass_unapproves_example :
    All (Unsigned alike 10 7) (reconcile alike 10 7 true (new_row ∷ []) table).table.rows
changed_pass_unapproves_example =
    changed_pass_unapproves alike 10 7 (new_row ∷ []) table ((λ e. cc e), tt)

abbrev no_reason : Rejection alike 10 7 false
no_reason = record { reason = none; at = none; by = none; noted = none }

rejections_stand_example :
    let after = (reconcile alike 10 7 false (new_row ∷ []) table).table.rows in
    HasId 3 after × All (Stands alike 10 7 false 3 no_reason) after
rejections_stand_example =
    rejections_stand alike 10 7 false 3 no_reason (new_row ∷ []) table (omega arith)
      (inr (inr (inl refl)))
      (
        (λ e. absurd (omega arith)),
        ((λ e. absurd (omega arith)), ((λ _. (refl, refl, refl, refl, refl)), tt)),
      )

every_row_counted_example :
    let s = reconcile alike 10 7 false (new_row ∷ []) table in
    (write_rows alike 10 7 false (new_row ∷ []) table ≡ 1)
    × (length s.table.rows ≡ length (prepared alike 10 7 false table).rows + s.inserted)
every_row_counted_example = every_row_counted alike 10 7 false (new_row ∷ []) table

abbrev reviewed : List Reviewed
reviewed =
    record { meeting_id = 1; is_approved = true }
    ∷ record { meeting_id = 2; is_approved = false }
    ∷ []

ship_gate-window_example :
    let g = ship_gate reviewed in
    let w = window reviewed in
    (g.approved ≡ count_approved w)
    × (g.total ≡ length w)
    × (g.meetings ≡ length (meetings_from [] w))
    × ((g.window_complete ≡ true)
        ↔ ((ship_gate_candidates ≤ length w) ⊎ (ship_gate_meetings ≤ length (meetings_from [] w))))
    × ((g.gate_met ≡ true)
        ↔ ((g.window_complete ≡ true) × (0 < length w) × (7 * length w ≤ 10 * count_approved w)))
ship_gate-window_example = ship_gate-window reviewed

abbrev spoken : List Spoken
spoken =
    record { text = codes " all in favor "; is_silence = false; start_s = 3 }
    ∷ record { text = codes ""; is_silence = true; start_s = 9 }
    ∷ record { text = codes "aye"; is_silence = false; start_s = 12 }
    ∷ []

joined_text : (transcript_text spoken).joined ≡ codes "all in favor aye"
unfolding transcript_text join_spaces is_heard strip
joined_text = refl

bounds_cut_example : All (Cuts (transcript_text spoken).joined) (transcript_text spoken).bounds
bounds_cut_example = bounds_cut spoken
