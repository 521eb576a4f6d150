-- ===== src/Transcripts/Process.antt =====
-- ai/transcripts/pipeline.py: fitness_reason and process_claim.
pub mod Edges
pub mod Ledger
use docket_pub.Prelude.{
  ℕ, Bool, true, false, Option, none, some, List, [], ◌∷◌, ◌++◌, codes, ltb, if◌then◌else◌,
}
use docket_pub.Transcripts.Types.{
  Status, uploaded, speakers_resolved, events_extracted, failed, Stage, Unfit, word_count_unknown,
  below_floor, Transcript, AgendaItem, StageEnd, returned, raised, held, permanent, rate_limited,
  transient, fatal, crashed, StageRun, Alert, transcript_needs_review, transcript_failed, World,
}
use docket_pub.Transcripts.Claim.{update}
use docket_pub.Transcripts.Marks.{
  advance, mark_low_speech, mark_needs_review, mark_rate_limited, mark_transient,
}
use docket_pub.Transcripts.Segments.{assign_index_points}

-- The strings that process_claim returns.
pub data Outcome : Type 0 where
  advanced skipped low_speech held_back rate_limited_out transient_out failed_out : Outcome

-- STAGE_FOR_STATUS; the claim filters the statuses, and for another the lookup raises KeyError.
unfoldable pub stage_for_status : Status → Option Stage
stage_for_status uploaded = some Stage.speakers
stage_for_status speakers_resolved = some Stage.events
stage_for_status events_extracted = some Stage.compare
stage_for_status _ = none

unfoldable pub fitness_reason : (floor : ℕ) → Option ℕ → Option Unfit
fitness_reason floor none = some word_count_unknown
fitness_reason floor (some n) = if ltb n floor then some (below_floor n floor) else none

-- rows_processed and rows_failed of the run's summary.
abbrev summary : StageEnd → ℕ × ℕ
summary (returned _) = (1, 0)
summary (raised (fatal _)) = (0, 0)
summary _ = (0, 1)

-- The row after the call in the clause of `try` or `except` that the stage's end takes.
unfoldable pub settle : (now : ℕ) → StageEnd → Transcript → Transcript
settle now (returned out) t = advance now out t
settle now (raised (held reason detail)) t = mark_needs_review now reason detail t
settle now (raised (permanent detail)) t = mark_needs_review now (codes "permanent") detail t
settle now (raised (rate_limited detail)) t =
    mark_rate_limited now (codes "rate limited: " ++ detail) t
settle now (raised (transient detail)) t = mark_transient now detail t
settle now (raised (crashed class detail)) t =
    mark_transient now (class ++ (codes ": " ++ detail)) t
settle now (raised (fatal _)) t = t

abbrev is_failed : Status → Bool
is_failed failed = true
is_failed _ = false

-- What mark_transient returned decides between `failed` and `transient`.
abbrev after_transient : Status → Outcome
after_transient s = if is_failed s then failed_out else transient_out

abbrev pub outcome_of : StageEnd → Transcript → Option Outcome
outcome_of (returned out) t = some (elim out.skipped_reason [ none ↦ advanced | some _ ↦ skipped ])
outcome_of (raised (held _ _)) t = some held_back
outcome_of (raised (permanent _)) t = some held_back
outcome_of (raised (rate_limited _)) t = some rate_limited_out
outcome_of (raised (transient _)) t = some (after_transient t.status)
outcome_of (raised (crashed _ _)) t = some (after_transient t.status)
outcome_of (raised (fatal _)) t = none

abbrev alert_of : Stage → StageEnd → Transcript → List Alert
alert_of stage (raised (held reason _)) t = transcript_needs_review t.meeting_id stage reason ∷ []
alert_of stage (raised (permanent _)) t =
    transcript_needs_review t.meeting_id stage (codes "permanent") ∷ []
alert_of stage (raised (transient _)) t =
    if is_failed t.status then transcript_failed t.meeting_id stage ∷ [] else []
alert_of stage _ t = []

-- `none` for the outcome is the AIFatalError, or the KeyError, that leaves the function.
module _ (floor : ℕ) (agenda : List AgendaItem) (now : ℕ) where
  -- From `_open_run` to `_close_run`; the claimed row `t` is the one of the table with its id.
  unfoldable pub run_stage : Stage → StageRun → Transcript → World → Option Outcome × World
  run_stage stage run t w =
      let t' = settle now run.ended t in
      let (processed, failures) = summary run.ended in
      (
        outcome_of run.ended t',
        record {
          transcripts = update t.id (settle now run.ended) w.transcripts;
          segments = run.write w.segments;
          runs =
              w.runs
              ++ record { stage = stage; closed = some (processed, failures, run.cost) } ∷ [];
          alerts = w.alerts ++ alert_of stage run.ended t';
        },
      )

  -- The fitness gate of the first stage.
  unfoldable pub gate : Option Unfit → StageRun → Transcript → World → Option Outcome × World
  gate (some reason) run t w = (
    some low_speech,
    record w { transcripts = update t.id (mark_low_speech now reason) w.transcripts },
  )
  gate none run t w =
      run_stage Stage.speakers run t
        (record w { segments = assign_index_points agenda t.id t.meeting_id w.segments })

  unfoldable pub dispatch :
      Option Stage → (Stage → StageRun) → Transcript → World → Option Outcome × World
  dispatch none stage_run t w = (none, w)
  dispatch (some Stage.speakers) stage_run t w =
      gate (fitness_reason floor t.word_count) (stage_run Stage.speakers) t w
  dispatch (some Stage.events) stage_run t w = run_stage Stage.events (stage_run Stage.events) t w
  dispatch (some Stage.compare) stage_run t w =
      run_stage Stage.compare (stage_run Stage.compare) t w

  unfoldable pub process_claim : (Stage → StageRun) → Transcript → World → Option Outcome × World
  process_claim stage_run t w = dispatch (stage_for_status t.status) stage_run t w
