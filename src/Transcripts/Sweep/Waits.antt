-- ===== src/Transcripts/Sweep/Waits.antt =====
-- ai/transcripts/pipeline.py: what a sweep leaves behind.
use docket_pub.Prelude.{
  ℕ, ◌+◌, ◌≤◌, ◌≡◌, false, some, List, [], ◌∷◌, map, All, In, arith, inl, inr, length,
  length-take-le, subst, All-map,
}
use docket_pub.Transcripts.Types.{Transcript, Meeting}
use docket_pub.Transcripts.Sweep.{
  MinutesRow, Recheck, week, is_stale, Stale, Swept, stamp_checked, sort, candidates, sweep_row,
  sweep_rows, selected, sweep_minutes_changes,
}

module _ (meetings : ℕ → Meeting) (recheck : ℕ → Recheck) (now : ℕ) where
  -- The rows of a meeting were checked now.
  abbrev pub Checked : ℕ → List MinutesRow → Type 0
  Checked meeting = All (λ m. m.meeting_id ≡ meeting → m.last_checked_at ≡ some now)

  stamped-Checked :
      (meeting : ℕ) (ms : List MinutesRow) → Checked meeting (map (stamp_checked now meeting) ms)
  unfolding stamp_checked
  stamped-Checked meeting [] = tt
  stamped-Checked meeting (m ∷ ms) = (ground arith, stamped-Checked meeting ms)

  again-Checked :
      (meeting other : ℕ) (ms : List MinutesRow)
      → Checked meeting ms
      → Checked meeting (map (stamp_checked now other) ms)
  unfolding stamp_checked
  again-Checked meeting other [] h = tt
  again-Checked meeting other (m ∷ ms) h = (ground arith, again-Checked meeting other ms h.1)

  sweep_row-minutes :
      (s : Stale) (w : Swept)
      → (sweep_row meetings recheck now s w).minutes
        ≡ map (stamp_checked now s.transcript.meeting_id) w.minutes
  unfolding sweep_row
  sweep_row-minutes s w = ground arith

  rows-Checked :
      (meeting : ℕ) (ss : List Stale) (w : Swept)
      → Checked meeting w.minutes
      → Checked meeting (sweep_rows meetings recheck now ss w).minutes
  unfolding sweep_rows
  rows-Checked meeting [] w h = h
  rows-Checked meeting (s ∷ ss) w h =
      rows-Checked meeting ss (sweep_row meetings recheck now s w)
        (rw (sweep_row-minutes s w) (again-Checked meeting s.transcript.meeting_id w.minutes h))

  swept-Checked :
      (s : Stale) (ss : List Stale) (w : Swept)
      → In s ss
      → Checked s.transcript.meeting_id (sweep_rows meetings recheck now ss w).minutes
  unfolding sweep_rows
  swept-Checked s [] w m = absurd m
  swept-Checked s (u ∷ us) w (inl e) =
      rows-Checked s.transcript.meeting_id us (sweep_row meetings recheck now u w) (
        rw (sweep_row-minutes u w) (
          subst
            (λ (x : Stale).
              Checked s.transcript.meeting_id
                (map (stamp_checked now x.transcript.meeting_id) w.minutes))
            e (stamped-Checked s.transcript.meeting_id w.minutes)))
  swept-Checked s (u ∷ us) w (inr m) = swept-Checked s us (sweep_row meetings recheck now u w) m

  -- The minutes that a sweep rechecks, at most `limit`, are not due again before a week has passed,
  -- whatever the recheck came to, a failure included, so that a failing recheck cannot starve the
  -- sweep.
  pub swept_waits :
      (limit later : ℕ) (ms : List MinutesRow) (ts : List Transcript) (s : Stale)
      → In s (selected meetings recheck now limit ms ts)
      → later ≤ now + week
      → (length (selected meetings recheck now limit ms ts) ≤ limit)
        × All
            (λ m.
              m.meeting_id ≡ s.transcript.meeting_id
              → is_stale later (meetings s.transcript.meeting_id) m s.transcript ≡ false)
            (sweep_minutes_changes meetings recheck now limit ms ts).minutes
  unfolding sweep_minutes_changes selected is_stale
  swept_waits limit later ms ts s m le = (
    length-take-le limit (sort (candidates meetings recheck now ms ts)),
    All-map _ _ _ (λ r h e. waits r (h e))
        (swept-Checked s (selected meetings recheck now limit ms ts)
          (record { minutes = ms; transcripts = ts; flagged = 0 }) m),
  )
    where
      waits :
          (r : MinutesRow)
          → r.last_checked_at ≡ some now
          → is_stale later (meetings s.transcript.meeting_id) r s.transcript ≡ false
      waits r h = ground arith
