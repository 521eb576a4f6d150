-- ===== src/Discrepancies/Recompare.antt =====
-- ai/transcripts/compare.py: match_stale, insert_rows, reconcile and write_rows.
pub mod Loop
mod Rows
pub mod Policy
pub mod Citing
pub mod Present
pub mod Verdicts
use mathlib.Core.Bool.{decide}
use docket_pub.Prelude.{
  ℕ, ◌+◌, ◌*◌, Bool, true, false, ◌&&◌, not, Option, none, some, List, [], ◌∷◌, ◌++◌, map, Text,
  ◌==◌, leb, ltb, keep, find?, length, contains, if◌then◌else◌,
}
use docket_pub.Discrepancies.Types.{
  ReviewState, proposed, approved, rejected, dismissed_by_model, stale, Category, Severity,
  MatchKind, Origin, Discrepancy, Table, is_proposed, is_approved, update_row,
}

unfoldable pub Category-discrete : Discrete Category
Category-discrete = hlevel

unfoldable pub same_category : Category → Category → Bool
unfolding Category-discrete decide
same_category a b = decide (Category-discrete a b)

abbrev pub same_id : Option ℕ → Option ℕ → Bool
same_id none none = true
same_id (some a) (some b) = a == b
same_id _ _ = false

-- A row as build_rows assembles it: the columns of _COLS.
pub record NewRow : Type 0 where
  pub meeting_id : ℕ
  pub agenda_item_id : Option ℕ
  pub category : Category
  pub severity : Severity
  pub title : Text
  pub description : Text
  pub transcript_event_id : Option ℕ
  pub minutes_event_id : Option ℕ
  pub transcript_excerpt : Option Text
  pub transcript_start_s : Option ℕ
  pub minutes_excerpt : Option Text
  pub minutes_page : Option ℕ
  pub citation_match : MatchKind
  pub confidence : Option ℕ
  pub origin : Origin
  pub review_state : ReviewState
  pub reject_reason : Option Text
  pub prompt_version : ℕ

-- The row that the INSERT makes; the columns that it does not name are NULL.
unfoldable pub inserted_row : ℕ → NewRow → Discrepancy
inserted_row id r = record {
  id = id;
  meeting_id = r.meeting_id;
  agenda_item_id = r.agenda_item_id;
  category = r.category;
  severity = r.severity;
  title = r.title;
  description = r.description;
  admin_title = none;
  admin_description = none;
  transcript_event_id = r.transcript_event_id;
  minutes_event_id = r.minutes_event_id;
  transcript_excerpt = r.transcript_excerpt;
  transcript_start_s = r.transcript_start_s;
  minutes_excerpt = r.minutes_excerpt;
  minutes_page = r.minutes_page;
  citation_match = r.citation_match;
  confidence = r.confidence;
  origin = r.origin;
  prompt_version = r.prompt_version;
  review_state = r.review_state;
  previous_review_state = none;
  reject_reason = r.reject_reason;
  reviewed_at = none;
  reviewed_by = none;
  review_note = none;
}

unfoldable pub insert_row : NewRow → Table → Table
insert_row r t = record { rows = t.rows ++ inserted_row t.next_id r ∷ []; next_id = t.next_id + 1 }

unfoldable pub insert_rows : List NewRow → Table → Table
insert_rows [] t = t
insert_rows (r ∷ rs) t = insert_rows rs (insert_row r t)

abbrev text_or_empty : Option Text → Text
text_or_empty none = []
text_or_empty (some s) = s

-- The state that a matched row is given.
abbrev pub new_state : Discrepancy → ReviewState
new_state p = elim p.review_state [ rejected ↦ rejected | approved ↦ approved | _ ↦ proposed ]

pub record Progress : Type 0 where
  pub table : Table
  pub used : List ℕ
  pub inserted : ℕ
  pub updated : ℕ
  pub kept : ℕ

abbrev pub free : List Discrepancy → List ℕ → List Discrepancy
free pool used = keep (λ p. not (contains p.id used)) pool

-- `similarity` is SequenceMatcher.ratio on the two normalized excerpts, in units, `full` to one.
module _ (similarity : Text → Text → ℕ) (full : ℕ) where
  abbrev is_comparable : NewRow → Discrepancy → Bool
  is_comparable r s =
      same_category s.category r.category && same_id s.agenda_item_id r.agenda_item_id

  abbrev ratio_of : NewRow → Discrepancy → ℕ
  ratio_of r s = similarity (text_or_empty s.minutes_excerpt) (text_or_empty r.minutes_excerpt)

  unfoldable pub better : NewRow → Discrepancy → Option Discrepancy × ℕ → Option Discrepancy × ℕ
  better r s best =
      if is_comparable r s && ltb best.1 (ratio_of r s) then (some s, ratio_of r s) else best

  -- The loop over the rows with the best so far.
  unfoldable pub best_match :
      NewRow → List Discrepancy → Option Discrepancy × ℕ → Option Discrepancy × ℕ
  best_match r [] best = best
  best_match r (s ∷ ss) best = best_match r ss (better r s best)

  -- ratio >= ADDITION_MATCH_RATIO, which is 0.8
  abbrev pub close_enough : Option Discrepancy × ℕ → Option Discrepancy
  close_enough (best, ratio) = if leb (8 * full) (10 * ratio) then best else none

  abbrev pub match_by : Option ℕ → NewRow → List Discrepancy → Option Discrepancy
  match_by (some e) r rows =
      find? (λ s. same_category s.category r.category && same_id s.transcript_event_id (some e))
        rows
  match_by none r rows = close_enough (best_match r rows (none, 0))

  unfoldable pub match_stale : NewRow → List Discrepancy → Option Discrepancy
  match_stale r rows = match_by r.transcript_event_id r rows

  -- SET of the UPDATE of a matched row.
  unfoldable pub refresh : NewRow → ReviewState → Discrepancy → Discrepancy
  refresh r new_state d =
      let again = is_proposed new_state in
      record d {
        title = r.title;
        description = r.description;
        severity = r.severity;
        minutes_event_id = r.minutes_event_id;
        minutes_excerpt = r.minutes_excerpt;
        minutes_page = r.minutes_page;
        transcript_excerpt = r.transcript_excerpt;
        transcript_start_s = r.transcript_start_s;
        citation_match = r.citation_match;
        confidence = r.confidence;
        prompt_version = r.prompt_version;
        review_state = new_state;
        reviewed_at = if again then none else d.reviewed_at;
        reviewed_by = if again then none else d.reviewed_by;
        review_note = if again then none else d.review_note;
      }

  -- The body of the loop, on the match.
  unfoldable pub settle_row : NewRow → Option Discrepancy → Progress → Progress
  settle_row r none s = record s { table = insert_row r s.table; inserted = s.inserted + 1 }
  settle_row r (some p) s =
      let used = p.id ∷ s.used in
      if is_approved (new_state p) then record s { used = used; kept = s.kept + 1 } else record s {
        table = record {
          rows = update_row p.id (refresh r (new_state p)) s.table.rows;
          next_id = s.table.next_id;
        };
        used = used;
        updated = s.updated + 1;
      }

  abbrev pub match_for : NewRow → List Discrepancy → List ℕ → Option Discrepancy
  match_for r pool used =
      if is_proposed r.review_state then match_stale r (free pool used) else none

  unfoldable pub reconcile_loop : List Discrepancy → List NewRow → Progress → Progress
  reconcile_loop pool [] s = s
  reconcile_loop pool (r ∷ rs) s = reconcile_loop pool rs (settle_row r (match_for r pool s.used) s)

  -- The states that the pass makes stale.
  abbrev pub goes_stale : (changed : Bool) → ReviewState → Bool
  goes_stale changed proposed = true
  goes_stale changed approved = changed
  goes_stale changed _ = false

  abbrev is_dismissed : ReviewState → Bool
  is_dismissed dismissed_by_model = true
  is_dismissed _ = false

  module _ (meeting : ℕ) (changed : Bool) where
    unfoldable pub drop_dismissed : List Discrepancy → List Discrepancy
    drop_dismissed = keep (λ d. not (d.meeting_id == meeting && is_dismissed d.review_state))

    unfoldable pub make_stale : Discrepancy → Discrepancy
    make_stale d =
        if d.meeting_id == meeting && goes_stale changed d.review_state
        then record d { previous_review_state = some d.review_state; review_state = stale }
        else d

    abbrev pub is_pooled : Discrepancy → Bool
    is_pooled d =
        d.meeting_id == meeting
        && elim d.review_state [ stale ↦ true | rejected ↦ true | approved ↦ true | _ ↦ false ]

    -- The table as the loop finds it.
    abbrev pub prepared : Table → Table
    prepared t = record { rows = map make_stale (drop_dismissed t.rows); next_id = t.next_id }

    abbrev pub pool_of : Table → List Discrepancy
    pool_of t = keep is_pooled (prepared t).rows

    abbrev fresh : Table → Progress
    fresh t = record { table = prepared t; used = []; inserted = 0; updated = 0; kept = 0 }

    -- reconcile; `changed` is minutes_changed or transcript_changed.
    unfoldable pub reconcile : List NewRow → Table → Progress
    reconcile rows t = reconcile_loop (pool_of t) rows (fresh t)

    -- The count of stale rows that reconcile reports.
    unfoldable pub stale_count : Table → ℕ
    stale_count t = length (
        keep (λ d. d.meeting_id == meeting && elim d.review_state [ stale ↦ true | _ ↦ false ])
          t.rows)

    unfoldable pub write_rows : List NewRow → Table → ℕ
    write_rows rows t = let s = reconcile rows t in s.inserted + s.updated + s.kept
