-- ===== src/Transcripts/Tests.antt =====
-- ai/transcripts/pipeline.py on a small table.
mod Ranges
mod Sweep
use docket_pub.Prelude.{
  [], ℕ, ◌+◌, ◌≤◌, ◌<◌, ◌≡◌, ◌≢◌, ◌↔◌, ◌⊎◌, inr, refl, Bool, true, false, none, some, List, ◌∷◌,
  ◌++◌, codes, arith, find?, ◌==◌,
}
use docket_pub.Transcripts.Types.{
  transcript_changed, Status, uploaded, speakers_resolved, events_extracted, compared, failed,
  Stage, Transcript, Meeting, returned, raised, transient, StageRun, World,
}
use docket_pub.Transcripts.Claim.{
  claim_next, first, stamp, update, is_due, is_eligible, is_ready, is_claimable, attempt_cap,
}
use docket_pub.Transcripts.Claim.Steps.{idle, next, settles, flags}
use docket_pub.Transcripts.Claim.Backoff.{no_second_claim}
use docket_pub.Transcripts.Marks.{advance, mark_transient}
use docket_pub.Transcripts.Stages.{Inputs, run_stage_fn}
use docket_pub.Transcripts.Process.{
  low_speech, settle, stage_for_status, fitness_reason, process_claim,
}
use docket_pub.Transcripts.Process.Edges.{Edge, stage_follows-Edge, third_failure}
use docket_pub.Transcripts.Process.Ledger.{entry, every_run_closed, others_untouched}
use docket_pub.Transcripts.Run.{Round, empty, loop, total_cost}
use docket_pub.Transcripts.Run.Totals.{counted, tick_totals}
use docket_pub.Transcripts.Run.Spend.{spend_bounded}
use docket_pub.Transcripts.Run.Resets.{reset, changed_reaches_compare}

abbrev meetings : ℕ → Meeting
meetings n = record {
  slug = codes "birmingham";
  external_id = some (codes "2543");
  is_hidden = false;
  meeting_date = n;
  minutes_url = none;
}

abbrev transcript : ℕ → ℕ → Status → Transcript
transcript id meeting status = record {
  id = id;
  meeting_id = meeting;
  status = status;
  version = 1;
  word_count = some 9000;
  stage_attempts = 0;
  last_attempted_at = none;
  last_error = none;
  needs_review_reason = none;
  compare_skipped_reason = none;
  updated_at = 0;
}

abbrev older : Transcript
older = transcript 1 10 events_extracted

abbrev newer : Transcript
newer = transcript 2 20 uploaded

abbrev table : List Transcript
table = older ∷ newer ∷ []

abbrev unlocked : ℕ → Bool
unlocked _ = false

abbrev claimed_row : Transcript
claimed_row = stamp 100 newer

program : Unit {0}
unfolding claim_next first stamp update is_due is_eligible is_ready is_claimable settle advance
    mark_transient
program = tt

claims_newest : (claim_next meetings unlocked 100 table).0 ≡ some claimed_row
unfolding program
claims_newest = refl

-- Once the first row has failed a stage, the other one is claimed.
abbrev table_after : List Transcript
table_after =
    update 2 (settle 200 (raised (transient (codes "timeout"))))
      (claim_next meetings unlocked 100 table).1

abbrev second_row : Transcript
second_row = stamp 300 older

second_claim : (claim_next meetings unlocked 300 table_after).0 ≡ some second_row
unfolding program
second_claim = refl

no_second_claim_example : second_row.id ≢ 2
unfolding program
no_second_claim_example =
    no_second_claim 100 2 meetings unlocked table claimed_row table_after unlocked 300 second_row
      claims_newest refl
      (next (next idle (settles 2 200 (raised (transient (codes "timeout"))))) (flags 5 250))
      ((tt, tt), omega arith) (omega arith) second_claim

abbrev inputs : Inputs
inputs = record {
  minutes_url = none;
  captured = none;
  stored = none;
  has_minutes_events = false;
  meeting_raise = none;
  capture_raise = none;
  minutes_raise = none;
  stage_raise = none;
}

stage_follows-Edge_example :
    Edge uploaded (settle 5 (run_stage_fn [] none inputs Stage.speakers) newer).status
unfolding stage_for_status
stage_follows-Edge_example = stage_follows-Edge [] none inputs 5 newer Stage.speakers refl

abbrev tried_twice : Transcript
tried_twice = record newer { stage_attempts = 2 }

third_failure_example :
    let t' = settle 6 (raised (transient (codes "timeout"))) (stamp 5 tried_twice) in
    (t'.stage_attempts ≡ 2 + 1)
    × (t'.stage_attempts ≤ attempt_cap)
    × ((t'.status ≡ failed) ↔ (◌≡◌ {A = ℕ} 2 2))
unfolding is_due
third_failure_example =
    third_failure 5 6 (transient (codes "timeout")) tried_twice refl tt (λ e. cc e)

abbrev quick : Transcript → Stage → StageRun
quick t s = record {
  ended = returned (record { next_status = speakers_resolved; skipped_reason = none });
  cost = 7;
  write = λ ss. ss;
}

abbrev world : World
world = record { transcripts = table; segments = []; runs = []; alerts = [] }

every_run_closed_example :
    let (o, w') = process_claim 300 [] 5 (quick newer) newer world in
    ((o ≡ some low_speech) × (w'.runs ≡ []) × (fitness_reason 300 (some 9000) ≢ none))
    ⊎ (w'.runs ≡ [] ++ entry 300 [] 5 Stage.speakers 7 o ∷ [])
unfolding stage_for_status
every_run_closed_example = every_run_closed 300 [] 5 (quick newer) Stage.speakers newer world refl

others_untouched_example :
    let (_, w') = process_claim 300 [] 5 (quick newer) newer world in
    find? (λ u. u.id == 1) w'.transcripts ≡ some older
others_untouched_example = others_untouched 300 [] 5 (quick newer) newer world 1 (omega arith)

abbrev rounds : ℕ → Round
rounds i = record { claim_at = 100 + i; mark_at = 200 + i; locked = unlocked; stages = quick }

tick_totals_example :
    let (_, s, _) = loop meetings [] 300 rounds 0 50 false 5 0 empty world in
    (s.processed ≡ counted s) × (s.processed ≤ 5)
tick_totals_example = tick_totals meetings [] 300 rounds 0 50 false 5 world

spend_bounded_example :
    let (_, _, w') = loop meetings [] 300 rounds 40 50 false 5 0 empty world in
    (40 + total_cost w'.runs ≤ 40) ⊎ (40 + total_cost w'.runs < 57)
spend_bounded_example = spend_bounded meetings [] 300 rounds 40 50 7 (λ _ _ _. omega arith) 5 world

abbrev compared_row : Transcript
compared_row = record older { status = compared; compare_skipped_reason = none }

changed_reaches_compare_example :
    let t' =
      advance 9
        (record { next_status = events_extracted; skipped_reason = none })
        (reset true false compared_row) in
    (t'.compare_skipped_reason ≡ some transcript_changed)
    × (stage_for_status t'.status ≡ some Stage.compare)
    × (is_ready (meetings 10) t'.status t'.compare_skipped_reason ≡ true)
changed_reaches_compare_example =
    changed_reaches_compare false 9 (meetings 10) compared_row (inr refl)
