-- ===== src/Transcripts/Tests/Sweep.antt =====
-- sweep_minutes_changes on two compared meetings: one recheck fails, the other finds a new PDF.
use docket_pub.Prelude.{
  ℕ, ◌≤◌, ◌≡◌, refl, true, false, none, some, List, [], ◌∷◌, All, inl, inr, codes, length, arith,
  ◌==◌,
}
use docket_pub.Transcripts.Types.{compared, Transcript, Meeting}
use docket_pub.Transcripts.Sweep.{
  MinutesRow, Recheck, recheck_raised, is_stale, sort, insert, candidates, sweep_row, sweep_rows,
  selected, sweep_minutes_changes,
}
use docket_pub.Transcripts.Sweep.Waits.{swept_waits}

abbrev meetings : ℕ → Meeting
meetings n = record {
  slug = codes "birmingham";
  external_id = some (codes "2543");
  is_hidden = false;
  meeting_date = n;
  minutes_url = some (codes "https");
}

abbrev transcript : ℕ → ℕ → Transcript
transcript id meeting = record {
  id = id;
  meeting_id = meeting;
  status = compared;
  version = 1;
  word_count = some 9000;
  stage_attempts = 0;
  last_attempted_at = some 7;
  last_error = none;
  needs_review_reason = none;
  compare_skipped_reason = none;
  updated_at = 7;
}

abbrev minutes : List MinutesRow
minutes =
    record { meeting_id = 10; extracted_at = 5; last_checked_at = none }
    ∷ record { meeting_id = 20; extracted_at = 3; last_checked_at = none }
    ∷ []

abbrev transcripts : List Transcript
transcripts = transcript 1 10 ∷ transcript 2 20 ∷ []

abbrev recheck : ℕ → Recheck
recheck n = elim (n == 20) [ true ↦ Recheck.changed | false ↦ recheck_raised ]

-- The minutes extracted first are swept first.
first_swept :
    selected meetings recheck 700000 1 minutes transcripts
    ≡ record { checked = 3; transcript = transcript 2 20 } ∷ []
unfolding selected sort insert candidates is_stale
first_swept = refl

one_flagged : (sweep_minutes_changes meetings recheck 700000 5 minutes transcripts).flagged ≡ 1
unfolding sweep_minutes_changes selected sort insert candidates is_stale sweep_rows sweep_row
one_flagged = refl

swept_waits_example :
    (length (selected meetings recheck 700000 5 minutes transcripts) ≤ 5)
    × All
        (λ m. m.meeting_id ≡ 10 → is_stale 800000 (meetings 10) m (transcript 1 10) ≡ false)
        (sweep_minutes_changes meetings recheck 700000 5 minutes transcripts).minutes
unfolding selected sort insert candidates is_stale
swept_waits_example =
    swept_waits meetings recheck 700000 5 800000 minutes transcripts
      (record { checked = 5; transcript = transcript 1 10 }) (inr (inl refl)) (omega arith)
