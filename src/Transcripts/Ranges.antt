-- ===== src/Transcripts/Ranges.antt =====
-- ai/transcripts/events.py: reassign_segments_from_events, the stretches of the recording between
-- the openings of items. An UPDATE is a map over the segments.
pub mod LastOpening
use docket_pub.Prelude.{
  ℕ, Bool, true, false, ◌&&◌, not, Option, none, some, List, [], ◌∷◌, ◌++◌, map, leb, ltb, ◌==◌,
  if◌then◌else◌,
}
use docket_pub.Transcripts.Types.{AssignmentMethod, event, manual, Segment}

-- The event types that the function tells apart.
pub data EventType : Type 0 where
  item_opened adjourn other_event : EventType

-- A row that write_events returns, less what the function does not read.
pub record EventRow : Type 0 where
  pub event_type : EventType
  pub agenda_item_refs : List ℕ
  pub segment_seq : Option ℕ

-- An item_opened event with a segment.
pub record Opening : Type 0 where
  pub refs : List ℕ
  pub at : ℕ

abbrev openings_of : EventRow → List Opening
openings_of r = elim r.event_type [
  | item_opened ↦ elim r.segment_seq [
    | none ↦ []
    | some n ↦ record { refs = r.agenda_item_refs; at = n } ∷ []
  ]
  | _ ↦ []
]

unfoldable pub openings : List EventRow → List Opening
openings [] = []
openings (r ∷ rs) = openings_of r ++ openings rs

-- sorted, by segment: stable.
unfoldable pub insert : Opening → List Opening → List Opening
insert o [] = o ∷ []
insert o (p ∷ ps) = let rest = insert o ps in if leb o.at p.at then o ∷ p ∷ ps else p ∷ rest

unfoldable pub sort : List Opening → List Opening
sort [] = []
sort (o ∷ os) = insert o (sort os)

abbrev earlier : Option ℕ → Option ℕ → Option ℕ
earlier none b = b
earlier (some a) none = some a
earlier (some a) (some b) = if leb a b then some a else some b

abbrev adjourned_at : EventRow → Option ℕ
adjourned_at r = elim r.event_type [ adjourn ↦ r.segment_seq | _ ↦ none ]

-- The segment of the first adjourn.
unfoldable pub adjourn_seq : List EventRow → Option ℕ
adjourn_seq [] = none
adjourn_seq (r ∷ rs) = earlier (adjourned_at r) (adjourn_seq rs)

abbrev next_at : List Opening → Option ℕ
next_at [] = none
next_at (o ∷ os) = some o.at

-- The end of the range that begins at `lo`, before an adjourn is taken into account `hi`.
unfoldable pub range_end : (adjourned : Option ℕ) (lo : ℕ) (hi : Option ℕ) → Option ℕ
range_end none lo hi = hi
range_end (some a) lo none = if ltb lo a then some a else none
range_end (some a) lo (some h) = if ltb lo a && ltb a h then some a else some h

abbrev is_below : ℕ → Option ℕ → Bool
is_below n none = true
is_below n (some h) = ltb n h

abbrev is_manual : Option AssignmentMethod → Bool
is_manual (some manual) = true
is_manual _ = false

-- The WHERE clause, less the range.
abbrev pub is_assignable : (transcript : ℕ) → Segment → Bool
is_assignable transcript s =
    s.transcript_id == transcript && not s.is_silence && not (is_manual s.assignment_method)

abbrev pub assign : ℕ → Segment → Segment
assign item s = record s { agenda_item_id = some item; assignment_method = some event }

module _ (transcript : ℕ) (adjourned : Option ℕ) where
  unfoldable pub write_range : (item lo : ℕ) (hi : Option ℕ) → Segment → Segment
  write_range item lo hi s =
      if is_assignable transcript s && leb lo s.seq && is_below s.seq hi then assign item s else s

  -- The body of the loop: only an opening of one item is written.
  unfoldable pub write_opening : Opening → (next : Option ℕ) → Segment → Segment
  write_opening o next s = elim o.refs [
    | [] ↦ s
    | item ∷ [] ↦ write_range item o.at (range_end adjourned o.at next) s
    | _ ∷ _ ∷ _ ↦ s
  ]

  unfoldable pub write_ranges : List Opening → List Segment → List Segment
  write_ranges [] ss = ss
  write_ranges (o ∷ os) ss = write_ranges os (map (write_opening o (next_at os)) ss)

unfoldable pub reassign_segments_from_events :
    (transcript : ℕ) → List EventRow → List Segment → List Segment
reassign_segments_from_events transcript rows ss =
    write_ranges transcript (adjourn_seq rows) (sort (openings rows)) ss
