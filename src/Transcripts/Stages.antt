-- ===== src/Transcripts/Stages.antt =====
-- The ends of the three stages: extract_minutes_side and run_events_stage of
-- ai/transcripts/events.py, run_compare_stage of compare.py and run_speaker_stage of speakers.py, as
-- far as they decide the stage's outcome. The download, the model calls and the database behind them
-- are inputs: whether each went well, and how many words came back.
use docket_pub.Prelude.{
  ℕ, Bool, true, false, ◌||◌, not, Option, none, some, [], ◌∷◌, Text, codes, ltb, if◌then◌else◌,
}
use docket_pub.Transcripts.Types.{
  speakers_resolved, events_extracted, compared, SkipReason, no_minutes, minutes_unavailable,
  minutes_changed, Stage, StageOutcome, Exception, held, StageEnd, returned, raised,
}

-- MINUTES_MIN_WORDS
abbrev pub minutes_min_words : ℕ
minutes_min_words = 50

-- `captured` and `stored` are the words of capture_minutes and load_minutes. A raise is an exception
-- of the calls that a stage makes, none if they all went well; in extract_minutes_side, of _meeting,
-- of capture_minutes or load_minutes, and of the calls after the count of the words.
pub record Inputs : Type 0 where
  pub minutes_url : Option Text
  pub captured : Option ℕ
  pub stored : Option ℕ
  pub has_minutes_events : Bool
  pub meeting_raise : Option Exception
  pub capture_raise : Option Exception
  pub minutes_raise : Option Exception
  pub stage_raise : Option Exception

-- What extract_minutes_side returns, "ok" being none, or raises.
pub data Side : Type 0 where
  status : Option SkipReason → Side
  side_raised : Exception → Side

abbrev has_url : Option Text → Bool
has_url none = false
has_url (some []) = false
has_url (some (_ ∷ _)) = true

abbrev or_stored : Option ℕ → Option ℕ → Option ℕ
or_stored (some n) _ = some n
or_stored none m = m

abbrev extracted : Option Exception → Side
extracted none = status none
extracted (some e) = side_raised e

abbrev or_raised : Option Exception → Side → Side
or_raised none rest = rest
or_raised (some e) rest = side_raised e

unfoldable pub extract_minutes_side : (no_text : Text) → Inputs → Side
extract_minutes_side no_text i =
    let read : Side = elim (or_stored i.captured i.stored) [
      | none ↦ status (some minutes_unavailable)
      | some words ↦
          if ltb words minutes_min_words
          then side_raised (held (codes "minutes_no_text") no_text)
          else extracted i.minutes_raise
    ] in
    or_raised i.meeting_raise
      (if has_url i.minutes_url then or_raised i.capture_raise read else status (some no_minutes))

abbrev pub end_with : StageOutcome → Option Exception → StageEnd
end_with out none = returned out
end_with out (some e) = raised e

unfoldable pub run_speaker_stage : Inputs → StageEnd
run_speaker_stage i =
    end_with (record { next_status = speakers_resolved; skipped_reason = none }) i.stage_raise

abbrev pub after_minutes : Side → StageEnd
after_minutes (status skipped) =
    returned (record { next_status = events_extracted; skipped_reason = skipped })
after_minutes (side_raised e) = raised e

abbrev pub unless_raised : Option Exception → StageEnd → StageEnd
unless_raised none rest = rest
unless_raised (some e) rest = raised e

unfoldable pub run_events_stage : (no_text : Text) → Inputs → StageEnd
run_events_stage no_text i =
    unless_raised i.stage_raise (after_minutes (extract_minutes_side no_text i))

abbrev is_minutes_changed : Option SkipReason → Bool
is_minutes_changed (some minutes_changed) = true
is_minutes_changed _ = false

abbrev pub compare_after : Side → StageEnd → StageEnd
compare_after (status none) rest = rest
compare_after (status (some r)) rest =
    returned (record { next_status = events_extracted; skipped_reason = some r })
compare_after (side_raised e) rest = raised e

-- Whether the stage extracts the minutes side again.
unfoldable pub needs_minutes : Option SkipReason → Inputs → Bool
needs_minutes reason i = not i.has_minutes_events || is_minutes_changed reason

-- `reason` is the compare_skipped_reason of the claim.
unfoldable pub run_compare_stage : (no_text : Text) → Option SkipReason → Inputs → StageEnd
run_compare_stage no_text reason i =
    let rest = end_with (record { next_status = compared; skipped_reason = none }) i.stage_raise in
    if needs_minutes reason i then compare_after (extract_minutes_side no_text i) rest else rest

-- _stage_fn
unfoldable pub run_stage_fn : (no_text : Text) → Option SkipReason → Inputs → Stage → StageEnd
run_stage_fn no_text reason i Stage.speakers = run_speaker_stage i
run_stage_fn no_text reason i Stage.events = run_events_stage no_text i
run_stage_fn no_text reason i Stage.compare = run_compare_stage no_text reason i
