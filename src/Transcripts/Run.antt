-- ===== src/Transcripts/Run.antt =====
-- ai/transcripts/pipeline.py: the loop of run_transcript_pipeline, reset_for_versions and
-- run_for_meeting. `World.runs` are today's rows of ai_runs; costs and the budget are in one unit.
pub mod Totals
pub mod Spend
pub mod Resets
use docket_pub.Prelude.{
  ℕ, zero, suc, ◌+◌, Bool, true, false, ◌&&◌, not, Option, none, some, List, [], ◌∷◌, map, leb,
  ◌==◌, if◌then◌else◌,
}
use docket_pub.Transcripts.Types.{
  Status, events_extracted, compared, speakers_resolved, Stage, Transcript, Meeting, AgendaItem,
  StageRun, AiRun, World, transcript_changed,
}
use docket_pub.Transcripts.Claim.{claim_next, claim_meeting}
use docket_pub.Transcripts.Process.{
  Outcome, advanced, skipped, low_speech, held_back, rate_limited_out, transient_out, failed_out,
  process_claim,
}

pub data Stop : Type 0 where
  budget rate_limited : Stop

-- PipelineSummary
pub record Summary : Type 0 where
  pub processed : ℕ
  pub advanced : ℕ
  pub skipped : ℕ
  pub low_speech : ℕ
  pub held : ℕ
  pub failed : ℕ
  pub transient : ℕ
  pub stopped_reason : Option Stop

abbrev pub empty : Summary
empty = record {
  processed = 0;
  advanced = 0;
  skipped = 0;
  low_speech = 0;
  held = 0;
  failed = 0;
  transient = 0;
  stopped_reason = none;
}

-- The setattr of the loop; a rate-limited claim counts as transient.
unfoldable pub count_outcome : Outcome → Summary → Summary
count_outcome advanced s = record s { advanced = s.advanced + 1 }
count_outcome skipped s = record s { skipped = s.skipped + 1 }
count_outcome low_speech s = record s { low_speech = s.low_speech + 1 }
count_outcome held_back s = record s { held = s.held + 1 }
count_outcome failed_out s = record s { failed = s.failed + 1 }
count_outcome transient_out s = record s { transient = s.transient + 1 }
count_outcome rate_limited_out s = record s { transient = s.transient + 1 }

-- How the loop is left: by its end or a break, or by an exception.
pub data LoopEnd : Type 0 where
  completed budget_exceeded stage_raised : LoopEnd

-- What a round meets: the times of the claim and of the marks, the rows that others hold, and what
-- each stage would do with the claimed row.
pub record Round : Type 0 where
  pub claim_at : ℕ
  pub mark_at : ℕ
  pub locked : ℕ → Bool
  pub stages : Transcript → Stage → StageRun

abbrev pub cost_of : AiRun → ℕ
cost_of r = elim r.closed [ none ↦ 0 | some (_, _, c) ↦ c ]

-- SUM(cost_usd)
abbrev pub total_cost : List AiRun → ℕ
total_cost [] = 0
total_cost (r ∷ rs) = cost_of r + total_cost rs

module _ (meetings : ℕ → Meeting) (agenda : List AgendaItem) (floor : ℕ) where
  -- One claim and what follows from it, on the table of the world.
  unfoldable pub claim_and_process : Round → World → Option (Transcript × Option Outcome) × World
  claim_and_process r w =
      let (claim, ts) = claim_next meetings r.locked r.claim_at w.transcripts in
      let w' = record w { transcripts = ts } in
      elim claim [
        | none ↦ (none, w')
        | some t ↦
            let (o, w'') = process_claim floor agenda r.mark_at (r.stages t) t w' in
            (some (t, o), w'')
      ]

  -- `earlier` is what the day's other runs have spent, `cap` the budget.
  module _ (rounds : ℕ → Round) (earlier cap : ℕ) (force_budget : Bool) where
    unfoldable pub over_budget : World → Bool
    over_budget w = leb cap (earlier + total_cost w.runs) && not force_budget

    abbrev stop_at_budget : Summary → World → LoopEnd × Summary × World
    stop_at_budget s w =
        if s.processed == 0
        then (budget_exceeded, s, w)
        else (completed, record s { stopped_reason = some budget }, w)

    abbrev tally : Outcome → Summary → Summary
    tally o s = count_outcome o (record s { processed = s.processed + 1 })

    abbrev pub is_rate_limited : Outcome → Bool
    is_rate_limited rate_limited_out = true
    is_rate_limited _ = false

    -- What the loop does with the result of a claim; `go` is the rest of the loop.
    abbrev pub after_claim :
        (Summary → World → LoopEnd × Summary × World)
        → Summary
        → Option (Transcript × Option Outcome) × World
        → LoopEnd × Summary × World
    after_claim go s (none, w) = (completed, s, w)
    after_claim go s (some (t, none), w) = (stage_raised, s, w)
    after_claim go s (some (t, some o), w) =
        let rest = go (tally o s) w in
        if is_rate_limited o
        then (completed, record (tally o s) { stopped_reason = some rate_limited }, w)
        else rest

    -- `for _ in range(limit)`, in round `i`.
    unfoldable pub loop : (limit i : ℕ) → Summary → World → LoopEnd × Summary × World
    loop zero i s w = (completed, s, w)
    loop (suc n) i s w =
        let next = after_claim (loop n (i + 1)) s (claim_and_process (rounds i) w) in
        if over_budget w then stop_at_budget s w else next

  -- run_for_meeting: at most three claims of one meeting, `until` a status.
  module _ (rounds : ℕ → Round) (same_status : Status → Status → Bool) (meeting : ℕ)
      (until : Status) where
    abbrev goes_on : Option Outcome → Bool
    goes_on (some advanced) = true
    goes_on (some skipped) = true
    goes_on _ = false

    abbrev outcomes : Option Outcome → List (Option Outcome) → List (Option Outcome)
    outcomes o rest = o ∷ (if goes_on o then rest else [])

    -- `none` among the outcomes stands for an exception that leaves the function.
    unfoldable pub meeting_loop : (left i : ℕ) → World → List (Option Outcome) × World
    meeting_loop zero i w = ([], w)
    meeting_loop (suc n) i w =
        let (claim, ts) =
          claim_meeting meetings (rounds i).locked (rounds i).claim_at meeting w.transcripts in
        let w' = record w { transcripts = ts } in
        elim claim [
          | none ↦ ([], w')
          | some t ↦
              let (o, w'') =
                process_claim floor agenda (rounds i).mark_at ((rounds i).stages t) t w' in
              let later = meeting_loop n (i + 1) w'' in
              if same_status t.status until
              then ([], w')
              else (outcomes o later.0, if goes_on o then later.1 else w'')
        ]

    unfoldable pub run_for_meeting : World → List (Option Outcome) × World
    run_for_meeting w = meeting_loop 3 0 w

-- reset_for_versions: the two UPDATEs, one after the other, on a row. `old_events` is the EXISTS over
-- meeting_events with an older EVENTS_PROMPT_VERSION, `old_rows` the one over minutes_discrepancies.
abbrev events_reset : Bool → Transcript → Transcript
events_reset old t =
    if old
    then record t {
      status = speakers_resolved;
      stage_attempts = 0;
      compare_skipped_reason = some transcript_changed;
    }
    else t

unfoldable pub reset_events : (old_events : Bool) → Transcript → Transcript
reset_events old t = elim t.status [
  | events_extracted ↦ events_reset old t
  | compared ↦ events_reset old t
  | _ ↦ t
]

unfoldable pub reset_compare : (old_rows : Bool) → Transcript → Transcript
reset_compare old t = elim t.status [
  | compared ↦ if old then record t { status = events_extracted; stage_attempts = 0 } else t
  | _ ↦ t
]

unfoldable pub reset_for_versions :
    (old_events old_rows : ℕ → Bool) → List Transcript → List Transcript
reset_for_versions old_events old_rows ts =
    map (λ t. reset_compare (old_rows t.meeting_id) t)
      (map (λ t. reset_events (old_events t.meeting_id) t) ts)
