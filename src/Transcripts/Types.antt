-- ===== src/Transcripts/Types.antt =====
-- The tables that ai/transcripts/pipeline.py reads and writes, as records, and the results of a
-- stage. Times are seconds. The columns are those of migrations 035 and 036 that the code touches.
use docket_pub.Prelude.{ℕ, Bool, Option, List, Text}

-- transcripts.status
pub data Status : Type 0 where
  claimed audio_fetched transcribed uploaded speakers_resolved events_extracted compared : Status
  failed needs_review low_speech : Status

-- The values that transcripts.compare_skipped_reason takes.
pub data SkipReason : Type 0 where
  no_minutes minutes_unavailable minutes_changed transcript_changed : SkipReason

pub data Stage : Type 0 where
  speakers events compare : Stage

-- The reasons of fitness_reason.
pub data Unfit : Type 0 where
  word_count_unknown : Unfit
  below_floor : (word_count floor : ℕ) → Unfit

-- transcripts.last_error: a fitness reason, or the text of an error.
pub data ErrorDetail : Type 0 where
  unfit : Unfit → ErrorDetail
  message : Text → ErrorDetail

pub record Transcript : Type 0 where
  pub id : ℕ
  pub meeting_id : ℕ
  pub status : Status
  pub version : ℕ
  pub word_count : Option ℕ
  pub stage_attempts : ℕ
  pub last_attempted_at : Option ℕ
  pub last_error : Option ErrorDetail
  pub needs_review_reason : Option Text
  pub compare_skipped_reason : Option SkipReason
  pub updated_at : ℕ

-- A meeting, joined with its municipality.
pub record Meeting : Type 0 where
  pub slug : Text
  pub external_id : Option Text
  pub is_hidden : Bool
  pub meeting_date : ℕ
  pub minutes_url : Option Text

pub data AssignmentMethod : Type 0 where
  index_point event manual : AssignmentMethod

pub record Segment : Type 0 where
  pub transcript_id : ℕ
  pub seq : ℕ
  pub start_s : ℕ
  pub is_silence : Bool
  pub agenda_item_id : Option ℕ
  pub assignment_method : Option AssignmentMethod

pub record AgendaItem : Type 0 where
  pub id : ℕ
  pub meeting_id : ℕ
  pub video_timestamp_seconds : Option ℕ

-- StageOutcome, less the text for the log.
pub record StageOutcome : Type 0 where
  pub next_status : Status
  pub skipped_reason : Option SkipReason

-- The exceptions of ai/exceptions.py, with their texts (TranscriptHeld, AIPermanentRowError,
-- AIRateLimited, AITransientError, AIFatalError), and any other, with the name of its class.
pub data Exception : Type 0 where
  held : (reason detail : Text) → Exception
  permanent rate_limited transient fatal : Text → Exception
  crashed : (class_name detail : Text) → Exception

pub data StageEnd : Type 0 where
  returned : StageOutcome → StageEnd
  raised : Exception → StageEnd

-- A run of a stage: how it ends, what it spent, and what it did to the segments.
pub record StageRun : Type 0 where
  pub ended : StageEnd
  pub cost : ℕ
  pub write : List Segment → List Segment

pub data Alert : Type 0 where
  transcript_needs_review : (meeting : ℕ) → Stage → (reason : Text) → Alert
  transcript_failed : (meeting : ℕ) → Stage → Alert

-- ai_runs: `closed` holds rows_processed, rows_failed and the cost once the run is finished.
pub record AiRun : Type 0 where
  pub stage : Stage
  pub closed : Option (ℕ × ℕ × ℕ)

pub record World : Type 0 where
  pub transcripts : List Transcript
  pub segments : List Segment
  pub runs : List AiRun
  pub alerts : List Alert
