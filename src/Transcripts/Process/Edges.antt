-- ===== src/Transcripts/Process/Edges.antt =====
-- ai/transcripts/pipeline.py: the status machine that the stages drive.
use docket_pub.Prelude.{
  ℕ, ◌+◌, ◌≤◌, ◌≡◌, ◌≢◌, ◌↔◌, refl, true, Option, none, some, arith, leb, Text, inl, inr,
  Bool-cases, codes, ◌++◌,
}
use docket_pub.Transcripts.Types.{
  Status, uploaded, speakers_resolved, events_extracted, compared, failed, needs_review, SkipReason,
  Stage, Transcript, Exception, StageEnd, returned, raised, held, permanent, transient,
  rate_limited, fatal, crashed, StageOutcome,
}
use docket_pub.Transcripts.Marks.{advance, mark_needs_review, mark_rate_limited, mark_transient}
use docket_pub.Transcripts.Claim.{stamp, attempt_cap, is_due}
use docket_pub.Transcripts.Stages.{
  Inputs, Side, status, side_raised, end_with, unless_raised, after_minutes, compare_after,
  extract_minutes_side, run_stage_fn, run_speaker_stage, run_events_stage, run_compare_stage,
  needs_minutes,
}
use docket_pub.Transcripts.Process.{settle, stage_for_status}

-- One step of the machine.
pub data Edge : Status → Status → Type 0 where
  resolve : Edge uploaded speakers_resolved
  extract : Edge speakers_resolved events_extracted
  finish : Edge events_extracted compared
  stay : {s : Status} → Edge s s
  hold : {s : Status} → Edge s needs_review
  give_up : {s : Status} → Edge s failed

ruleset edges = (resolve, extract, finish, stay, hold, give_up)

-- Where the three stages lead when they return.
abbrev Leads : Status → StageEnd → Type 0
Leads s (returned out) = Edge s out.next_status
Leads s (raised e) = Unit

end_with-Leads :
    (s : Status) (out : StageOutcome) (e : Option Exception)
    → Edge s out.next_status
    → Leads s (end_with out e)
end_with-Leads s out none h = h
end_with-Leads s out (some e) h = tt

unless_raised-Leads :
    (s : Status) (rest : StageEnd) (e : Option Exception)
    → Leads s rest
    → Leads s (unless_raised e rest)
unless_raised-Leads s rest none h = h
unless_raised-Leads s rest (some e) h = tt

after_minutes-Leads : (side : Side) → Leads speakers_resolved (after_minutes side)
after_minutes-Leads (status r) = extract
after_minutes-Leads (side_raised e) = tt

compare_after-Leads :
    (side : Side) (rest : StageEnd)
    → Leads events_extracted rest
    → Leads events_extracted (compare_after side rest)
compare_after-Leads (status none) rest h = h
compare_after-Leads (status (some r)) rest h = stay
compare_after-Leads (side_raised e) rest h = tt

module _ (no_text : Text) (reason : Option SkipReason) (i : Inputs) where
  events-Leads : Leads speakers_resolved (run_events_stage no_text i)
  unfolding run_events_stage
  events-Leads =
      unless_raised-Leads speakers_resolved (after_minutes (extract_minutes_side no_text i))
        i.stage_raise (after_minutes-Leads (extract_minutes_side no_text i))

  compare-Leads : Leads events_extracted (run_compare_stage no_text reason i)
  unfolding run_compare_stage
  compare-Leads =
      let done : StageOutcome = record { next_status = compared; skipped_reason = none } in
      let rest = end_with-Leads events_extracted done i.stage_raise finish in
      elim (Bool-cases (needs_minutes reason i)) [
        | inl e ↦ rw e (
            compare_after-Leads (extract_minutes_side no_text i) (end_with done i.stage_raise) rest)
        | inr e ↦ rw e rest
      ]

  stage_fn-Leads :
      (s : Status) (stage : Stage)
      → stage_for_status s ≡ some stage
      → Leads s (run_stage_fn no_text reason i stage)
  unfolding stage_for_status run_stage_fn run_speaker_stage
  stage_fn-Leads uploaded Stage.speakers e =
      end_with-Leads uploaded (record { next_status = speakers_resolved; skipped_reason = none })
        i.stage_raise resolve
  stage_fn-Leads speakers_resolved Stage.events e = events-Leads
  stage_fn-Leads events_extracted Stage.compare e = compare-Leads
  stage_fn-Leads _ _ e = absurd (cc)

  transient-Edge :
      (now : ℕ) (detail : Text) (t : Transcript)
      → Edge t.status (mark_transient now detail t).status
  unfolding mark_transient
  transient-Edge now detail t = elim (Bool-cases (leb 3 t.stage_attempts)) [
    | inl e ↦ rw e give_up
    | inr e ↦ rw e stay
  ]

  settle-Edge :
      (now : ℕ) (end : StageEnd) (t : Transcript)
      → Leads t.status end
      → Edge t.status (settle now end t).status
  unfolding settle advance mark_needs_review mark_rate_limited
  settle-Edge now (returned out) t h = h
  settle-Edge now (raised (held reason' detail)) t h = hold
  settle-Edge now (raised (permanent detail)) t h = hold
  settle-Edge now (raised (rate_limited detail)) t h = stay
  settle-Edge now (raised (transient detail)) t h = transient-Edge now detail t
  settle-Edge now (raised (crashed class detail)) t h =
      transient-Edge now (class ++ (codes ": " ++ detail)) t
  settle-Edge now (raised (fatal detail)) t h = stay

  -- Running the stage of a row's status, however it ends, takes the status along one edge of the
  -- machine: to the status behind that stage, to needs_review, to failed, or nowhere. In particular
  -- no stage is passed over and none is undone.
  pub stage_follows-Edge :
      (now : ℕ) (t : Transcript) (stage : Stage)
      → stage_for_status t.status ≡ some stage
      → Edge t.status (settle now (run_stage_fn no_text reason i stage) t).status
  stage_follows-Edge now t stage e =
      settle-Edge now (run_stage_fn no_text reason i stage) t (stage_fn-Leads t.status stage e)

-- A claim and a rate-limited run leave the count of attempts and the status as they were before the
-- claim, so that no run of them can make the row fail; the time of the claim stays, so the row
-- still waits out the backoff.
pub rate_limit_free :
    (start now : ℕ) (detail : Text) (t : Transcript)
    → let t' = settle now (raised (rate_limited detail)) (stamp start t) in
      (t'.stage_attempts ≡ t.stage_attempts)
      × (t'.status ≡ t.status)
      × (t'.compare_skipped_reason ≡ t.compare_skipped_reason)
      × (t'.last_attempted_at ≡ some start)
unfolding settle mark_rate_limited stamp
rate_limit_free start now detail t = (omega arith, refl, refl, refl)

-- The ends that count as a failed attempt.
abbrev pub IsFailedAttempt : Exception → Type 0
IsFailedAttempt (transient _) = Unit
IsFailedAttempt (crashed _ _) = Unit
IsFailedAttempt _ = ⊥

-- A due row that is not failed, is claimed and then ends by a transient error or a crash keeps the
-- count of the attempt, which is at most three, and becomes failed exactly if this was the third.
pub third_failure :
    (start now : ℕ) (e : Exception) (t : Transcript)
    → is_due start t ≡ true
    → IsFailedAttempt e
    → t.status ≢ failed
    → let t' = settle now (raised e) (stamp start t) in
      (t'.stage_attempts ≡ t.stage_attempts + 1)
      × (t'.stage_attempts ≤ attempt_cap)
      × ((t'.status ≡ failed) ↔ (t.stage_attempts ≡ 2))
unfolding settle mark_transient stamp is_due
third_failure start now (transient d) t due _ live = ground arith
third_failure start now (crashed c d) t due _ live = ground arith
third_failure start now (held r d) t due bad live = absurd bad
third_failure start now (permanent d) t due bad live = absurd bad
third_failure start now (rate_limited d) t due bad live = absurd bad
third_failure start now (fatal d) t due bad live = absurd bad
