-- ===== src/Transcripts/Marks.antt =====
-- ai/transcripts/pipeline.py: advance and the mark_* functions, on the row that they update; and
-- retry_transcript of services/discrepancies.py.
pub mod Markers
use docket_pub.Prelude.{
  ℕ, ◌-◌, Bool, true, false, Option, none, some, Text, leb, take, if◌then◌else◌,
}
use docket_pub.Transcripts.Types.{
  Status, uploaded, speakers_resolved, events_extracted, compared, failed, needs_review, low_speech,
  SkipReason, no_minutes, minutes_unavailable, unfit, message, Unfit, Transcript, StageOutcome,
}

-- detail[:2000]
abbrev pub detail_cap : ℕ
detail_cap = 2000

abbrev is_compared : Status → Bool
is_compared compared = true
is_compared _ = false

-- The CASE of advance: a stage before compare that reports no reason leaves the column alone.
abbrev reason_after : StageOutcome → Option SkipReason → Option SkipReason
reason_after out old = elim out.skipped_reason [
  | none ↦ (if is_compared out.next_status then none else old)
  | some r ↦ some r
]

-- The second UPDATE of advance.
abbrev reset_attempts : Option SkipReason → ℕ → ℕ
reset_attempts (some no_minutes) n = 0
reset_attempts (some minutes_unavailable) n = 0
reset_attempts _ n = n

unfoldable pub advance : (now : ℕ) → StageOutcome → Transcript → Transcript
advance now out t = record t {
  status = out.next_status;
  stage_attempts = reset_attempts out.skipped_reason 0;
  last_error = none;
  needs_review_reason = none;
  compare_skipped_reason = reason_after out t.compare_skipped_reason;
  updated_at = now;
}

unfoldable pub mark_low_speech : (now : ℕ) → Unfit → Transcript → Transcript
mark_low_speech now u t = record t {
  status = low_speech;
  last_error = some (unfit u);
  stage_attempts = 0;
  updated_at = now;
}

unfoldable pub mark_needs_review : (now : ℕ) → (reason detail : Text) → Transcript → Transcript
mark_needs_review now reason detail t = record t {
  status = needs_review;
  needs_review_reason = some reason;
  last_error = some (message (take detail_cap detail));
  updated_at = now;
}

unfoldable pub mark_rate_limited : (now : ℕ) → (detail : Text) → Transcript → Transcript
mark_rate_limited now detail t = record t {
  last_error = some (message (take detail_cap detail));
  stage_attempts = t.stage_attempts - 1;
  updated_at = now;
}

unfoldable pub mark_transient : (now : ℕ) → (detail : Text) → Transcript → Transcript
mark_transient now detail t = record t {
  last_error = some (message (take detail_cap detail));
  status = if leb 3 t.stage_attempts then failed else t.status;
  updated_at = now;
}

-- The row of retry_transcript: `none` where the function raises DiscrepancyStateError. `has_events`
-- and `has_speakers` are the two EXISTS tests.
unfoldable pub retry_transcript :
    (now : ℕ) (has_events has_speakers : Bool) → Transcript → Option Transcript
retry_transcript now has_events has_speakers t =
    let back = record t {
      status =
          if has_events
          then events_extracted
          else if has_speakers
          then speakers_resolved
          else uploaded;
      stage_attempts = 0;
      last_attempted_at = none;
      needs_review_reason = none;
      last_error = none;
      compare_skipped_reason = none;
      updated_at = now;
    } in
    elim t.status [ needs_review ↦ some back | failed ↦ some back | _ ↦ none ]
