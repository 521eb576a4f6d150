-- ===== src/Discrepancies/Gate.antt =====
-- services/discrepancies.py: ship_gate. The ratio is kept as its two parts; `ratio >= 0.70` is read as
-- a comparison of whole numbers, which the correctly rounded quotient of two counts agrees with.
pub mod Window
use docket_pub.Prelude.{
  ℕ, ◌+◌, ◌*◌, Bool, ◌&&◌, ◌||◌, not, List, [], ◌∷◌, ◌++◌, length, leb, ltb, ◌==◌, contains,
  if◌then◌else◌,
}

abbrev pub ship_gate_meetings : ℕ
ship_gate_meetings = 10

abbrev pub ship_gate_candidates : ℕ
ship_gate_candidates = 30

-- A material row that was reviewed: its meeting, and whether it was approved.
pub record Reviewed : Type 0 where
  pub meeting_id : ℕ
  pub is_approved : Bool

pub record Tally : Type 0 where
  pub approved : ℕ
  pub rejected : ℕ
  pub meetings : List ℕ

abbrev pub start : Tally
start = record { approved = 0; rejected = 0; meetings = [] }

-- The meeting of the row, appended if it is new.
abbrev pub seen_with : Reviewed → Tally → List ℕ
seen_with r t =
    if contains r.meeting_id t.meetings then t.meetings else t.meetings ++ r.meeting_id ∷ []

-- The row counted.
abbrev pub counted_with : Reviewed → Tally → Tally
counted_with r t = record {
  approved = if r.is_approved then t.approved + 1 else t.approved;
  rejected = if r.is_approved then t.rejected else t.rejected + 1;
  meetings = seen_with r t;
}

-- The first `break`: an eleventh meeting.
abbrev pub opens_eleventh : Reviewed → Tally → Bool
opens_eleventh r t =
    not (contains r.meeting_id t.meetings) && length t.meetings == ship_gate_meetings

-- The second `break`: thirty candidates.
abbrev pub has_thirty : Tally → Bool
has_thirty t = leb ship_gate_candidates (t.approved + t.rejected)

unfoldable pub gate_loop : List Reviewed → Tally → Tally
gate_loop [] t = t
gate_loop (r ∷ rs) t =
    let t' = counted_with r t in
    let rest = gate_loop rs t' in
    if opens_eleventh r t then t else if has_thirty t' then t' else rest

pub record Gate : Type 0 where
  pub approved : ℕ
  pub rejected : ℕ
  pub total : ℕ
  pub meetings : ℕ
  pub window_complete : Bool
  pub gate_met : Bool

abbrev pub gate_of : Tally → Gate
gate_of t =
    let total = t.approved + t.rejected in
    let complete = leb ship_gate_candidates total || leb ship_gate_meetings (length t.meetings) in
    record {
      approved = t.approved;
      rejected = t.rejected;
      total = total;
      meetings = length t.meetings;
      window_complete = complete;
      gate_met = complete && (ltb 0 total && leb (7 * total) (10 * t.approved));
    }

unfoldable pub ship_gate : List Reviewed → Gate
ship_gate rows = gate_of (gate_loop rows start)
