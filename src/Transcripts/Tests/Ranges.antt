-- ===== src/Transcripts/Tests/Ranges.antt =====
-- reassign_segments_from_events on five segments: one before the first opening, one by hand, one
-- after the adjournment.
use docket_pub.Prelude.{ℕ, ◌*◌, ◌≡◌, refl, false, Option, none, some, List, [], ◌∷◌, map}
use docket_pub.Transcripts.Types.{AssignmentMethod, manual, event, Segment}
use docket_pub.Transcripts.Ranges.{
  EventRow, item_opened, adjourn, openings, sort, insert, adjourn_seq, range_end, write_range,
  write_opening, write_ranges, reassign_segments_from_events,
}
use docket_pub.Transcripts.Ranges.LastOpening.{last_open, placed, reassign-placed}

abbrev segment : ℕ → Option ℕ → Option AssignmentMethod → Segment
segment n item method = record {
  transcript_id = 2;
  seq = n;
  start_s = 10 * n;
  is_silence = false;
  agenda_item_id = item;
  assignment_method = method;
}

abbrev segments : List Segment
segments =
    segment 0 none none
    ∷ segment 1 none none
    ∷ segment 2 (some 9) (some manual)
    ∷ segment 3 none none
    ∷ segment 5 none none
    ∷ []

abbrev events : List EventRow
events =
    record { event_type = adjourn; agenda_item_refs = []; segment_seq = some 4 }
    ∷ record { event_type = item_opened; agenda_item_refs = 8 ∷ []; segment_seq = some 3 }
    ∷ record { event_type = item_opened; agenda_item_refs = 7 ∷ []; segment_seq = some 1 }
    ∷ []

reassigned :
    reassign_segments_from_events 2 events segments
    ≡ segment 0 none none
      ∷ segment 1 (some 7) (some event)
      ∷ segment 2 (some 9) (some manual)
      ∷ segment 3 (some 8) (some event)
      ∷ segment 5 none none
      ∷ []
unfolding reassign_segments_from_events openings sort insert adjourn_seq range_end write_range
    write_opening write_ranges
reassigned = refl

reassign-placed_example :
    reassign_segments_from_events 2 events segments
    ≡ map (λ s. placed 2 (adjourn_seq events) (last_open (sort (openings events)) s.seq) s) segments
reassign-placed_example = reassign-placed 2 events segments
