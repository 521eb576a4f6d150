-- ===== src/Transcripts/Run/Spend.antt =====
-- ai/transcripts/pipeline.py: the daily budget, checked before every claim of a tick.
use mathlib.Core.Option.{Option}
use docket_pub.Prelude.{
  ℕ, zero, suc, ◌+◌, ◌≤◌, ◌<◌, ◌≡◌, ap, false, Option, none, some, List, [], ◌∷◌, ◌++◌, arith,
  Bool-cases, Option-cases, inl, inr, ◌⊎◌, ◌==◌,
}
use docket_pub.Transcripts.Types.{Transcript, Meeting, AgendaItem, World, Stage, StageRun, AiRun}
use docket_pub.Transcripts.Process.{Outcome, stage_for_status, process_claim, dispatch}
use docket_pub.Transcripts.Process.Ledger.{entry, every_run_closed}
use docket_pub.Transcripts.Claim.{claim_next}
use docket_pub.Transcripts.Run.{
  Summary, empty, LoopEnd, Round, after_claim, over_budget, loop, claim_and_process, total_cost,
  cost_of, is_rate_limited,
}

total_cost-append :
    (rs : List AiRun) (r : AiRun) → total_cost (rs ++ r ∷ []) ≡ total_cost rs + cost_of r
total_cost-append [] r = omega arith
total_cost-append (x ∷ rs) r = omega (arith, total_cost-append rs r)

-- What one claim adds to the ledger.
abbrev Adds : ℕ → World → World → Type 0
Adds m w w' = total_cost w'.runs ≤ total_cost w.runs + m

module _ (floor : ℕ) (agenda : List AgendaItem) (now m : ℕ) where
  unstaged-Adds :
      (stage_run : Stage → StageRun) (t : Transcript) (w : World)
      → stage_for_status t.status ≡ none
      → Adds m w (process_claim floor agenda now stage_run t w).1
  unfolding process_claim dispatch
  unstaged-Adds stage_run t w e = rw e (omega arith)

  process_claim-Adds :
      (stage_run : Stage → StageRun) (t : Transcript) (w : World)
      → ((stage : Stage) → (stage_run stage).cost ≤ m)
      → Adds m w (process_claim floor agenda now stage_run t w).1
  process_claim-Adds stage_run t w cheap = elim (Option-cases (stage_for_status t.status)) [
    | inl e ↦ unstaged-Adds stage_run t w e
    | inr (stage, e) ↦ elim (every_run_closed floor agenda now stage_run stage t w e) [
      | inl (_, same, _) ↦ omega (arith, ap total_cost same)
      | inr more ↦ omega (
        arith,
        ap total_cost more,
        total_cost-append w.runs (
            entry floor agenda now stage (stage_run stage).cost
              (process_claim floor agenda now stage_run t w).0),
        cheap stage,
      )
    ]
  ]

module _ (meetings : ℕ → Meeting) (agenda : List AgendaItem) (floor : ℕ) where
  claim_and_process-Adds :
      (m : ℕ) (r : Round) (w : World)
      → ((t : Transcript) (stage : Stage) → (r.stages t stage).cost ≤ m)
      → Adds m w (claim_and_process meetings agenda floor r w).1
  unfolding claim_and_process
  claim_and_process-Adds m r w cheap =
      let (claim, ts) = claim_next meetings r.locked r.claim_at w.transcripts in
      let w1 = record w { transcripts = ts } in
      elim (Option-cases claim) [
        | inl e ↦ rw (claim_and_process, e) (omega arith)
        | inr (t, e) ↦
            rw (claim_and_process, e)
              (process_claim-Adds floor agenda r.mark_at m (r.stages t) t w1 (cheap t))
      ]

  module _ (rounds : ℕ → Round) (earlier cap m : ℕ)
      (cheap : (i : ℕ) (t : Transcript) (stage : Stage)
        → ((rounds i).stages t stage).cost ≤ m) where
    -- The end of a tick that began with `spent`: nothing was spent, or less than a run over the budget.
    abbrev Within : ℕ → LoopEnd × Summary × World → Type 0
    Within spent (_, _, w) =
        (earlier + total_cost w.runs ≤ spent) ⊎ (earlier + total_cost w.runs < cap + m)

    after_claim-Within :
        (go : Summary → World → LoopEnd × Summary × World) (s : Summary) (spent : ℕ)
        → ((s' : Summary) (w' : World)
            → earlier + total_cost w'.runs < cap + m
            → Within spent (go s' w'))
        → (r : Option (Transcript × Option Outcome) × World)
        → earlier + total_cost r.1.runs < cap + m
        → Within spent (after_claim meetings agenda floor rounds earlier cap false go s r)
    after_claim-Within go s spent rest (none, w) h = inr h
    after_claim-Within go s spent rest (some (t, none), w) h = inr h
    after_claim-Within go s spent rest (some (t, some o), w) h =
        elim (Bool-cases (is_rate_limited meetings agenda floor rounds earlier cap false o)) [
          | inl e ↦ rw e (inr h)
          | inr e ↦ rw e (rest _ w h)
        ]

    -- A claim that is made below the budget ends below the budget plus one run.
    below :
        (w w' : World)
        → over_budget meetings agenda floor rounds earlier cap false w ≡ false
        → Adds m w w'
        → earlier + total_cost w'.runs < cap + m
    unfolding over_budget
    below w w' e adds = ground arith

    loop-Within :
        (n i : ℕ) (s : Summary) (w : World) (spent : ℕ)
        → (earlier + total_cost w.runs ≤ spent) ⊎ (earlier + total_cost w.runs < cap + m)
        → Within spent (loop meetings agenda floor rounds earlier cap false n i s w)
    unfolding loop over_budget
    loop-Within zero i s w spent h = h
    loop-Within (suc n) i s w spent h =
        elim (Bool-cases (over_budget meetings agenda floor rounds earlier cap false w)) [
          | inl e ↦ elim (Bool-cases (s.processed == 0)) [
            | inl z ↦ rw (e, z) h
            | inr z ↦ rw (e, z) h
          ]
          | inr e ↦ rw e (
              after_claim-Within (loop meetings agenda floor rounds earlier cap false n (i + 1)) s
                spent (λ s' w' h'. loop-Within n (i + 1) s' w' spent (inr h'))
                (claim_and_process meetings agenda floor (rounds i) w)
                (below w (claim_and_process meetings agenda floor (rounds i) w).1 e
                  (claim_and_process-Adds m (rounds i) w (cheap i))))
        ]

    -- Without the override, a tick whose runs cost at most `m` each leaves the day's spend no higher
    -- than it found it, or below the budget plus the cost of one run, however many claims it makes.
    pub spend_bounded :
        (limit : ℕ) (w : World)
        → let (_, _, w') = loop meetings agenda floor rounds earlier cap false limit 0 empty w in
          (earlier + total_cost w'.runs ≤ earlier + total_cost w.runs)
          ⊎ (earlier + total_cost w'.runs < cap + m)
    spend_bounded limit w =
        loop-Within limit 0 empty w (earlier + total_cost w.runs) (inl (omega arith))
