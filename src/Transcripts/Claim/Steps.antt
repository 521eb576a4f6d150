-- ===== src/Transcripts/Claim/Steps.antt =====
-- ai/transcripts/pipeline.py: the transactions of the workers on the table transcripts, as steps. The
-- producer's uploads and an admin's retry are no steps.
use docket_pub.Prelude.{ℕ, ◌≤◌, ◌≢◌, Bool, List, [], ◌∷◌, inl, inr, Bool-cases}
use docket_pub.Transcripts.Types.{Transcript, Meeting, Unfit, StageEnd}
use docket_pub.Transcripts.Claim.{update, claim_next, claim_meeting}
use docket_pub.Transcripts.Marks.{mark_low_speech}
use docket_pub.Transcripts.Process.{settle}
use docket_pub.Transcripts.Run.{reset_for_versions}
use docket_pub.Transcripts.Sweep.{
  MinutesRow, Recheck, Stale, Swept, flag, is_changed, selected, sweep_row, sweep_rows,
  sweep_minutes_changes,
}

-- One transaction of some worker on the table, its claims at `start` or later.
pub data Work (meetings : ℕ → Meeting) (start : ℕ)
    : List Transcript → List Transcript → Type 0 where
  claims :
      {ts : List Transcript} (locked : ℕ → Bool) (now : ℕ)
      → start ≤ now
      → Work meetings start ts (claim_next meetings locked now ts).1
  runs_meeting :
      {ts : List Transcript} (locked : ℕ → Bool) (meeting now : ℕ)
      → start ≤ now
      → Work meetings start ts (claim_meeting meetings locked now meeting ts).1
  settles :
      {ts : List Transcript} (k now : ℕ) (end : StageEnd)
      → Work meetings start ts (update k (settle now end) ts)
  quiets :
      {ts : List Transcript} (k now : ℕ) (u : Unfit)
      → Work meetings start ts (update k (mark_low_speech now u) ts)
  resets :
      {ts : List Transcript} (old_events old_rows : ℕ → Bool)
      → Work meetings start ts (reset_for_versions old_events old_rows ts)
  -- A sweep found the minutes of the row's meeting changed.
  flags : {ts : List Transcript} (k now : ℕ) → Work meetings start ts (update k (flag now) ts)

pub data Works (meetings : ℕ → Meeting) (start : ℕ) (ts : List Transcript)
    : List Transcript → Type 0 where
  idle : Works meetings start ts ts
  next :
      {us vs : List Transcript}
      → Works meetings start ts us
      → Work meetings start us vs
      → Works meetings start ts vs

-- No sweep among the steps flags the row.
abbrev pub SparesIn :
    {meetings : ℕ → Meeting} {start : ℕ} {ts us : List Transcript} (k : ℕ)
    → Work meetings start ts us
    → Type 0
SparesIn k (flags j now) = j ≢ k
SparesIn k _ = Unit

abbrev pub Spares :
    {meetings : ℕ → Meeting} {start : ℕ} {ts us : List Transcript} (k : ℕ)
    → Works meetings start ts us
    → Type 0
Spares k idle = Unit
Spares k (next ws w) = Spares k ws × SparesIn k w

-- A sweep is a number of such steps.
pub sweep-Works :
    (meetings : ℕ → Meeting) (start : ℕ) (recheck : ℕ → Recheck) (now : ℕ) (limit : ℕ)
    (ms : List MinutesRow) (ts : List Transcript)
    → Works meetings start ts (sweep_minutes_changes meetings recheck now limit ms ts).transcripts
unfolding sweep_minutes_changes sweep_rows sweep_row
sweep-Works meetings start recheck now limit ms ts =
    rows (selected meetings recheck now limit ms ts)
      (record { minutes = ms; transcripts = ts; flagged = 0 }) idle
  where
    rows :
        (ss : List Stale) (w : Swept)
        → Works meetings start ts w.transcripts
        → Works meetings start ts (sweep_rows meetings recheck now ss w).transcripts
    rows [] w h = h
    rows (s ∷ ss) w h = elim (Bool-cases (is_changed (recheck s.transcript.meeting_id))) [
      | inl e ↦
          rows ss (sweep_row meetings recheck now s w) (rw e (next h (flags s.transcript.id now)))
      | inr e ↦ rows ss (sweep_row meetings recheck now s w) (rw e h)
    ]
