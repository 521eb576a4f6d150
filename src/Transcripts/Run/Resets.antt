-- ===== src/Transcripts/Run/Resets.antt =====
-- ai/transcripts/pipeline.py: reset_for_versions, and where the next claim of a reset row leads.
use docket_pub.Prelude.{ℕ, ◌≡◌, Bool, true, false, none, some, arith, ◌⊎◌}
use docket_pub.Transcripts.Types.{
  speakers_resolved, events_extracted, compared, transcript_changed, Stage, Transcript, Meeting,
}
use docket_pub.Transcripts.Claim.{is_ready}
use docket_pub.Transcripts.Marks.{advance}
use docket_pub.Transcripts.Process.{stage_for_status}
use docket_pub.Transcripts.Run.{reset_events, reset_compare}

-- Both updates of reset_for_versions on one row.
abbrev pub reset : (old_events old_rows : Bool) → Transcript → Transcript
reset old_events old_rows t = reset_compare old_rows (reset_events old_events t)

-- What a version reset does to a row, in every state: with events of an older prompt a row at
-- events_extracted or compared goes back to speakers_resolved, marked transcript_changed; otherwise
-- a compared row with open discrepancies of an older prompt goes back to events_extracted, its
-- reason kept; every other row is left alone. The attempts start over exactly where it went back.
pub reset_cases :
    (old_events old_rows : Bool) (t : Transcript)
    → let t' = reset old_events old_rows t in
      ((t'.status ≡ speakers_resolved)
        × (t'.compare_skipped_reason ≡ some transcript_changed)
        × (t'.stage_attempts ≡ 0)
        × (old_events ≡ true)
        × ((t.status ≡ events_extracted) ⊎ (t.status ≡ compared)))
      ⊎ ((t'.status ≡ events_extracted)
          × (t'.compare_skipped_reason ≡ t.compare_skipped_reason)
          × (t'.stage_attempts ≡ 0)
          × (old_events ≡ false)
          × (old_rows ≡ true)
          × (t.status ≡ compared))
      ⊎ (t' ≡ t)
unfolding reset_events reset_compare
reset_cases old_events old_rows t = ground arith

-- A row that was reset for its events, and whose events stage then ends without a skip, carries
-- transcript_changed to a compare claim: the row is ready for the compare stage, and its reason is
-- the marker, whatever the meeting's minutes.
pub changed_reaches_compare :
    (old_rows : Bool) (now : ℕ) (m : Meeting) (t : Transcript)
    → (t.status ≡ events_extracted) ⊎ (t.status ≡ compared)
    → let t' =
        advance now
          (record { next_status = events_extracted; skipped_reason = none })
          (reset true old_rows t) in
      (t'.compare_skipped_reason ≡ some transcript_changed)
      × (stage_for_status t'.status ≡ some Stage.compare)
      × (is_ready m t'.status t'.compare_skipped_reason ≡ true)
unfolding reset_events reset_compare advance stage_for_status is_ready
changed_reaches_compare old_rows now m t h = ground arith
