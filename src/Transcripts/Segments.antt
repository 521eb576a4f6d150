-- ===== src/Transcripts/Segments.antt =====
-- ai/transcripts/pipeline.py: assign_index_points.
pub mod IndexPoints
use docket_pub.Prelude.{
  ℕ, Bool, true, false, ◌&&◌, ◌||◌, not, Option, none, some, List, [], ◌∷◌, map, ltb, leb, ◌==◌,
  keep, if◌then◌else◌,
}
use docket_pub.Transcripts.Types.{Segment, AgendaItem, index_point}

abbrev pub starts_by : ℕ → Option ℕ → Bool
starts_by s none = false
starts_by s (some t) = leb t s

abbrev cue : AgendaItem → ℕ
cue a = elim a.video_timestamp_seconds [ none ↦ 0 | some t ↦ t ]

-- ORDER BY a.video_timestamp_seconds DESC, a.id
abbrev pub latest : AgendaItem → AgendaItem → Bool
latest a b = ltb (cue b) (cue a) || (cue a == cue b && leb a.id b.id)

unfoldable pub first_item : List AgendaItem → Option AgendaItem
first_item [] = none
first_item (a ∷ as') = elim (first_item as') [
  | none ↦ some a
  | some b ↦ if latest a b then some a else some b
]

-- The subquery: the meeting's latest index point at or before the segment's start.
unfoldable pub item_at : List AgendaItem → (meeting : ℕ) → (start_s : ℕ) → Option AgendaItem
item_at agenda meeting s =
    first_item (keep (λ a. a.meeting_id == meeting && starts_by s a.video_timestamp_seconds) agenda)

abbrev pub is_unassigned : Segment → Bool
is_unassigned s = elim s.assignment_method [ none ↦ true | some _ ↦ false ]

abbrev assign_to : Segment → Option AgendaItem → Segment
assign_to s none = s
assign_to s (some a) = record s { agenda_item_id = some a.id; assignment_method = some index_point }

unfoldable pub assign_segment : List AgendaItem → (transcript meeting : ℕ) → Segment → Segment
assign_segment agenda transcript meeting s =
    if s.transcript_id == transcript && is_unassigned s && not s.is_silence
    then assign_to s (item_at agenda meeting s.start_s)
    else s

unfoldable pub assign_index_points :
    List AgendaItem → (transcript meeting : ℕ) → List Segment → List Segment
assign_index_points agenda transcript meeting = map (assign_segment agenda transcript meeting)
