-- ===== src/Transcripts/Sweep.antt =====
-- ai/transcripts/pipeline.py: sweep_minutes_changes. Its transactions are taken at one time `now`;
-- recheck_minutes, which downloads the PDF, is an argument.
pub mod Waits
use docket_pub.Prelude.{
  ℕ, ◌+◌, ◌*◌, Bool, true, false, ◌&&◌, Option, none, some, List, [], ◌∷◌, ◌++◌, map, leb, ltb,
  ◌==◌, if◌then◌else◌, find?, take,
}
use docket_pub.Transcripts.Types.{
  Status, compared, events_extracted, minutes_changed, Transcript, Meeting,
}
use docket_pub.Transcripts.Claim.{update, is_some}

-- minutes_texts
pub record MinutesRow : Type 0 where
  pub meeting_id : ℕ
  pub extracted_at : ℕ
  pub last_checked_at : Option ℕ

-- The results of recheck_minutes: True, False, None, or an exception.
pub data Recheck : Type 0 where
  changed unchanged unknown recheck_raised : Recheck

abbrev pub week : ℕ
week = 7 * 86400

-- COALESCE(mt.last_checked_at, mt.extracted_at)
abbrev pub checked_at : MinutesRow → ℕ
checked_at m = elim m.last_checked_at [ none ↦ m.extracted_at | some at ↦ at ]

abbrev is_compared : Status → Bool
is_compared compared = true
is_compared _ = false

-- The WHERE clause on the joined row.
unfoldable pub is_stale : (now : ℕ) → Meeting → MinutesRow → Transcript → Bool
is_stale now meeting m t =
    is_compared t.status && is_some meeting.minutes_url && ltb (checked_at m + week) now

pub record Stale : Type 0 where
  pub checked : ℕ
  pub transcript : Transcript

-- ORDER BY, ties in the order of the table.
unfoldable pub insert : Stale → List Stale → List Stale
insert s [] = s ∷ []
insert s (u ∷ us) =
    let rest = insert s us in if leb s.checked u.checked then s ∷ u ∷ us else u ∷ rest

unfoldable pub sort : List Stale → List Stale
sort [] = []
sort (s ∷ ss) = insert s (sort ss)

-- What the sweep works on: the two tables and the count of changed minutes.
pub record Swept : Type 0 where
  pub minutes : List MinutesRow
  pub transcripts : List Transcript
  pub flagged : ℕ

unfoldable pub stamp_checked : (now meeting : ℕ) → MinutesRow → MinutesRow
stamp_checked now meeting m =
    if m.meeting_id == meeting then record m { last_checked_at = some now } else m

unfoldable pub flag : (now : ℕ) → Transcript → Transcript
flag now t = record t {
  status = events_extracted;
  compare_skipped_reason = some minutes_changed;
  stage_attempts = 0;
  last_attempted_at = none;
  updated_at = now;
}

abbrev pub is_changed : Recheck → Bool
is_changed changed = true
is_changed _ = false

module _ (meetings : ℕ → Meeting) (recheck : ℕ → Recheck) (now : ℕ) where
  abbrev candidate : List MinutesRow → Transcript → List Stale
  candidate ms t = elim (find? (λ m. m.meeting_id == t.meeting_id) ms) [
    | none ↦ []
    | some m ↦
        if is_stale now (meetings t.meeting_id) m t
        then record { checked = checked_at m; transcript = t } ∷ []
        else []
  ]

  unfoldable pub candidates : List MinutesRow → List Transcript → List Stale
  candidates ms [] = []
  candidates ms (t ∷ ts) = candidate ms t ++ candidates ms ts

  -- The body of the loop.
  unfoldable pub sweep_row : Stale → Swept → Swept
  sweep_row s w =
      let stamped = map (stamp_checked now s.transcript.meeting_id) w.minutes in
      if is_changed (recheck s.transcript.meeting_id)
      then record {
        minutes = stamped;
        transcripts = update s.transcript.id (flag now) w.transcripts;
        flagged = w.flagged + 1;
      }
      else record w { minutes = stamped }

  unfoldable pub sweep_rows : List Stale → Swept → Swept
  sweep_rows [] w = w
  sweep_rows (s ∷ ss) w = sweep_rows ss (sweep_row s w)

  -- The rows that the SELECT returns.
  unfoldable pub selected : (limit : ℕ) → List MinutesRow → List Transcript → List Stale
  selected limit ms ts = take limit (sort (candidates ms ts))

  unfoldable pub sweep_minutes_changes : (limit : ℕ) → List MinutesRow → List Transcript → Swept
  sweep_minutes_changes limit ms ts =
      sweep_rows (selected limit ms ts) (record { minutes = ms; transcripts = ts; flagged = 0 })
