-- ===== src/Transcripts/Run/Totals.antt =====
-- ai/transcripts/pipeline.py: the counts of a tick.
use docket_pub.Prelude.{
  ℕ, zero, suc, ◌+◌, ◌≤◌, ◌≡◌, refl, Bool, Option, none, some, List, ◌==◌, arith, Bool-cases, inl,
  inr,
}
use docket_pub.Transcripts.Types.{Transcript, Meeting, AgendaItem, World}
use docket_pub.Transcripts.Process.{
  Outcome, advanced, skipped, low_speech, held_back, rate_limited_out, transient_out, failed_out,
}
use docket_pub.Transcripts.Run.{
  Summary, empty, count_outcome, LoopEnd, Round, after_claim, over_budget, loop, claim_and_process,
  is_rate_limited,
}

-- The outcomes counted.
abbrev pub counted : Summary → ℕ
counted s = s.advanced + s.skipped + s.low_speech + s.held + s.failed + s.transient

counted-tally :
    (o : Outcome) (s : Summary)
    → (counted (count_outcome o (record s { processed = s.processed + 1 })) ≡ counted s + 1)
      × ((count_outcome o (record s { processed = s.processed + 1 })).processed ≡ s.processed + 1)
unfolding count_outcome
counted-tally advanced s = (omega arith, refl)
counted-tally skipped s = (omega arith, refl)
counted-tally low_speech s = (omega arith, refl)
counted-tally held_back s = (omega arith, refl)
counted-tally failed_out s = (omega arith, refl)
counted-tally transient_out s = (omega arith, refl)
counted-tally rate_limited_out s = (omega arith, refl)

-- The summary counts every processed claim once, and processed at most `most` of them.
abbrev Balanced : ℕ → LoopEnd × Summary × World → Type 0
Balanced most (_, s, _) = (s.processed ≡ counted s) × (s.processed ≤ most)

module _ (meetings : ℕ → Meeting) (agenda : List AgendaItem) (floor : ℕ) (rounds : ℕ → Round)
    (earlier cap : ℕ) (force : Bool) where
  after_claim-Balanced :
      (go : Summary → World → LoopEnd × Summary × World) (n : ℕ) (s : Summary)
      → ((s' : Summary) (w' : World)
          → s'.processed ≡ counted s'
          → Balanced (s'.processed + n) (go s' w'))
      → s.processed ≡ counted s
      → (r : Option (Transcript × Option Outcome) × World)
      → Balanced
          (s.processed + suc n)
          (after_claim meetings agenda floor rounds earlier cap force go s r)
  after_claim-Balanced go n s rest h (none, w) = (h, omega arith)
  after_claim-Balanced go n s rest h (some (t, none), w) = (h, omega arith)
  after_claim-Balanced go n s rest h (some (t, some o), w) =
      let (one_more, moved) = counted-tally o s in
      let s' = count_outcome o (record s { processed = s.processed + 1 }) in
      let ok : s'.processed ≡ counted s' = omega (arith, one_more, moved) in
      let below = rest s' w ok in
      elim (Bool-cases (is_rate_limited meetings agenda floor rounds earlier cap force o)) [
        | inl e ↦ rw e (ok, omega (arith, moved))
        | inr e ↦ rw e (below.0, omega (arith, below.1, moved))
      ]

  loop-Balanced :
      (n i : ℕ) (s : Summary) (w : World)
      → s.processed ≡ counted s
      → Balanced (s.processed + n) (loop meetings agenda floor rounds earlier cap force n i s w)
  unfolding loop
  loop-Balanced zero i s w h = (h, omega arith)
  loop-Balanced (suc n) i s w h =
      elim (Bool-cases (over_budget meetings agenda floor rounds earlier cap force w)) [
        | inl e ↦ elim (Bool-cases (s.processed == 0)) [
          | inl z ↦ rw (e, z) (h, omega arith)
          | inr z ↦ rw (e, z) (h, omega arith)
        ]
        | inr e ↦ rw e (
            after_claim-Balanced (loop meetings agenda floor rounds earlier cap force n (i + 1)) n s
              (λ s' w' h'. loop-Balanced n (i + 1) s' w' h') h
              (claim_and_process meetings agenda floor (rounds i) w))
      ]

  -- However a tick ends, by its limit, an empty queue, the budget, a rate limit or an exception, its
  -- summary accounts for every processed claim under exactly one outcome, and at most `limit` claims
  -- are processed.
  pub tick_totals :
      (limit : ℕ) (w : World)
      → let (_, s, _) = loop meetings agenda floor rounds earlier cap force limit 0 empty w in
        (s.processed ≡ counted s) × (s.processed ≤ limit)
  tick_totals limit w =
      let (all, most) = loop-Balanced limit 0 empty w (omega arith) in (all, omega (arith, most))
