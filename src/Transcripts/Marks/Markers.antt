-- ===== src/Transcripts/Marks/Markers.antt =====
-- The markers minutes_changed and transcript_changed of compare_skipped_reason, from the place that
-- writes them to the compare stage that reads them.
use docket_pub.Prelude.{ℕ, ◌≡◌, ◌≢◌, none, arith}
use docket_pub.Transcripts.Types.{compared, Transcript, StageOutcome}
use docket_pub.Transcripts.Marks.{advance}

-- A stage before compare that reports no reason carries the marker on; a skip overwrites it with its
-- own reason, and a finished compare clears it.
pub advance_marker :
    (now : ℕ) (out : StageOutcome) (t : Transcript)
    → let t' = advance now out t in
      (out.skipped_reason ≡ none
        → out.next_status ≢ compared
        → t'.compare_skipped_reason ≡ t.compare_skipped_reason)
      × (out.skipped_reason ≢ none → t'.compare_skipped_reason ≡ out.skipped_reason)
      × (out.skipped_reason ≡ none → out.next_status ≡ compared → t'.compare_skipped_reason ≡ none)
unfolding advance
advance_marker now out t = (λ p q. ground arith, λ p. ground arith, λ p q. ground arith)
