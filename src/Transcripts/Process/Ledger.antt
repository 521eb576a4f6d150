-- ===== src/Transcripts/Process/Ledger.antt =====
-- ai/transcripts/pipeline.py: what process_claim leaves in ai_runs and in the rows of the table.
use docket_pub.Prelude.{
  ℕ, ◌≡◌, ◌≢◌, refl, sym, subst, Option, none, some, List, [], ◌∷◌, ◌++◌, arith, ◌==◌, inl, inr,
  ◌⊎◌, Bool-cases, find?,
}
use docket_pub.Transcripts.Types.{
  Status, Stage, Transcript, held, permanent, rate_limited, transient, fatal, crashed, StageEnd,
  returned, raised, AgendaItem, StageRun, AiRun, World, Unfit,
}
use docket_pub.Transcripts.Marks.{mark_low_speech}
use docket_pub.Transcripts.Claim.{update}
use docket_pub.Transcripts.Claim.Backoff.{settle_id}
use docket_pub.Transcripts.Process.{
  Outcome, advanced, skipped, low_speech, settle, summary, outcome_of, after_transient,
  stage_for_status, fitness_reason, run_stage, gate, dispatch, process_claim,
}

-- The rows_processed and rows_failed that go with an outcome.
abbrev pub counts : Option Outcome → ℕ × ℕ
counts none = (0, 0)
counts (some advanced) = (1, 0)
counts (some skipped) = (1, 0)
counts (some low_speech) = (0, 0)
counts (some _) = (0, 1)

counts-after_transient : (s : Status) → counts (some (after_transient s)) ≡ (0, 1)
counts-after_transient s = ground arith

counts-outcome_of : (end : StageEnd) (t : Transcript) → counts (outcome_of end t) ≡ summary end
counts-outcome_of (returned out) t = ground arith
counts-outcome_of (raised (transient d)) t = counts-after_transient t.status
counts-outcome_of (raised (crashed c d)) t = counts-after_transient t.status
counts-outcome_of (raised (held r d)) t = refl
counts-outcome_of (raised (permanent d)) t = refl
counts-outcome_of (raised (rate_limited d)) t = refl
counts-outcome_of (raised (fatal d)) t = refl

update_other :
    (k j : ℕ) (f : Transcript → Transcript) (ts : List Transcript)
    → ((t : Transcript) → (f t).id ≡ t.id)
    → j ≢ k
    → find? (λ u. u.id == j) (update k f ts) ≡ find? (λ u. u.id == j) ts
unfolding update
update_other k j f [] keeps ne = refl
update_other k j f (t ∷ ts) keeps ne = elim (Bool-cases (t.id == k)) [
  | inl e ↦ rw e (ground (arith, keeps t, update_other k j f ts keeps ne, e))
  | inr e ↦ rw e (ground (arith, update_other k j f ts keeps ne))
]

module _ (floor : ℕ) (agenda : List AgendaItem) (now : ℕ) where
  -- The entry that a run leaves in ai_runs.
  abbrev pub entry : Stage → ℕ → Option Outcome → AiRun
  entry stage cost o = record { stage = stage; closed = some ((counts o).0, (counts o).1, cost) }

  abbrev Logged : Stage → ℕ → World → Option Outcome × World → Type 0
  Logged stage cost w (o, w') = w'.runs ≡ w.runs ++ entry stage cost o ∷ []

  run_stage-Logged :
      (stage : Stage) (run : StageRun) (t : Transcript) (w : World)
      → Logged stage run.cost w (run_stage floor agenda now stage run t w)
  unfolding run_stage
  run_stage-Logged stage run t w = rw (counts-outcome_of run.ended (settle now run.ended t))

  abbrev Closes : Stage → ℕ → Transcript → World → Option Outcome × World → Type 0
  Closes stage cost t w (o, w') =
      ((o ≡ some low_speech) × (w'.runs ≡ w.runs) × (fitness_reason floor t.word_count ≢ none))
      ⊎ (w'.runs ≡ w.runs ++ entry stage cost o ∷ [])

  gate-Closes :
      (u : Option Unfit) (run : StageRun) (t : Transcript) (w : World)
      → fitness_reason floor t.word_count ≡ u
      → Closes Stage.speakers run.cost t w (gate floor agenda now u run t w)
  unfolding gate
  gate-Closes (some reason) run t w e = inl (refl, refl, λ p. cc (e, p))
  gate-Closes none run t w e = inr (run_stage-Logged Stage.speakers run t _)

  dispatch-Closes :
      (stage_run : Stage → StageRun) (stage : Stage) (t : Transcript) (w : World)
      → Closes stage
          (stage_run stage).cost
          t
          w
          (dispatch floor agenda now (some stage) stage_run t w)
  unfolding dispatch
  dispatch-Closes stage_run Stage.speakers t w =
      gate-Closes (fitness_reason floor t.word_count) (stage_run Stage.speakers) t w refl
  dispatch-Closes stage_run Stage.events t w =
      inr (run_stage-Logged Stage.events (stage_run Stage.events) t w)
  dispatch-Closes stage_run Stage.compare t w =
      inr (run_stage-Logged Stage.compare (stage_run Stage.compare) t w)

  -- A claim of a row with a stage either ends at the fitness gate, as low_speech and with no run, or
  -- leaves one new run of that stage in ai_runs, closed with the cost that was spent, also where the
  -- stage raises and where the exception leaves the function; the run counts one row processed for
  -- an advance or a skip, one row failed for any other outcome, and none if the function raised.
  pub every_run_closed :
      (stage_run : Stage → StageRun) (stage : Stage) (t : Transcript) (w : World)
      → stage_for_status t.status ≡ some stage
      → let (o, w') = process_claim floor agenda now stage_run t w in
        ((o ≡ some low_speech) × (w'.runs ≡ w.runs) × (fitness_reason floor t.word_count ≢ none))
        ⊎ (w'.runs ≡ w.runs ++ entry stage (stage_run stage).cost o ∷ [])
  unfolding process_claim
  every_run_closed stage_run stage t w e =
      subst
        (λ (o : Option Stage).
          Closes stage (stage_run stage).cost t w (dispatch floor agenda now o stage_run t w))
        (sym e) (dispatch-Closes stage_run stage t w)

  abbrev Untouched : ℕ → World → Option Outcome × World → Type 0
  Untouched j w (_, w') =
      find? (λ u. u.id == j) w'.transcripts ≡ find? (λ u. u.id == j) w.transcripts

  run_stage-Untouched :
      (j : ℕ) (stage : Stage) (run : StageRun) (t : Transcript) (w : World)
      → j ≢ t.id
      → Untouched j w (run_stage floor agenda now stage run t w)
  unfolding run_stage
  run_stage-Untouched j stage run t w ne =
      update_other t.id j (settle now run.ended) w.transcripts (settle_id now run.ended) ne

  gate-Untouched :
      (u : Option Unfit) (run : StageRun) (t : Transcript) (w : World) (j : ℕ)
      → j ≢ t.id
      → Untouched j w (gate floor agenda now u run t w)
  unfolding gate mark_low_speech
  gate-Untouched (some reason) run t w j ne =
      update_other t.id j (mark_low_speech now reason) w.transcripts (λ x. refl) ne
  gate-Untouched none run t w j ne = run_stage-Untouched j Stage.speakers run t _ ne

  dispatch-Untouched :
      (o : Option Stage) (stage_run : Stage → StageRun) (t : Transcript) (w : World) (j : ℕ)
      → j ≢ t.id
      → Untouched j w (dispatch floor agenda now o stage_run t w)
  unfolding dispatch
  dispatch-Untouched none stage_run t w j ne = refl
  dispatch-Untouched (some Stage.speakers) stage_run t w j ne =
      gate-Untouched (fitness_reason floor t.word_count) (stage_run Stage.speakers) t w j ne
  dispatch-Untouched (some Stage.events) stage_run t w j ne =
      run_stage-Untouched j Stage.events (stage_run Stage.events) t w ne
  dispatch-Untouched (some Stage.compare) stage_run t w j ne =
      run_stage-Untouched j Stage.compare (stage_run Stage.compare) t w ne

  -- Processing a claim changes no other transcript's row, on every branch.
  pub others_untouched :
      (stage_run : Stage → StageRun) (t : Transcript) (w : World) (j : ℕ)
      → j ≢ t.id
      → let (_, w') = process_claim floor agenda now stage_run t w in
        find? (λ u. u.id == j) w'.transcripts ≡ find? (λ u. u.id == j) w.transcripts
  unfolding process_claim
  others_untouched stage_run t w j ne =
      dispatch-Untouched (stage_for_status t.status) stage_run t w j ne
