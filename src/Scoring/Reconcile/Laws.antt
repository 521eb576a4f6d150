-- ===== src/Scoring/Reconcile/Laws.antt =====
-- ai/reconcile.py: when the two stages are accepted, retried or escalated.
use docket_pub.Prelude.{
  ℕ, ◌≡◌, ◌↔◌, Bool, true, false, none, [], arith, ◌⊎◌, inl, inr, ◌≢◌, Bool-cases,
}
use docket_pub.Scoring.Facts.{Facts, Rewrite, Item, is_known_source, at_least, dollars}
use docket_pub.Scoring.Reconcile.{
  accept, retry_stage2_with_override, mark_cross_stage_conflict, is_given, is_high_attention,
  first_matter, conflicts_of, reconcile_stages,
}

module _ (word : ℕ → Bool) (facts : Facts) (rewrite : Rewrite) (item : Item) where
  -- Stage 1 found nothing of substance.
  pub record NoSubstance : Type 0 where
    pub no_counterparty : is_given facts.counterparty ≡ false
    pub no_funding : is_known_source facts.funding_source ≡ false
    pub no_dollars : at_least item.dollars_amount (dollars 50_000) ≡ false
    pub no_attention : is_high_attention word facts rewrite item ≡ false
    pub no_matter : first_matter word facts rewrite item ≡ none

  NoSubstance→nil : NoSubstance → conflicts_of word facts rewrite item ≡ []
  unfolding conflicts_of
  NoSubstance→nil h = ground arith

  nil→NoSubstance :
      rewrite.is_substantive ≡ false → conflicts_of word facts rewrite item ≡ [] → NoSubstance
  unfolding conflicts_of
  nil→NoSubstance p h = ground arith

  substantive→nil : rewrite.is_substantive ≡ true → conflicts_of word facts rewrite item ≡ []
  unfolding conflicts_of
  substantive→nil p = ground arith

  nil_of_accept :
      (retried : Bool)
      → (reconcile_stages word facts rewrite item retried).action ≡ accept
      → conflicts_of word facts rewrite item ≡ []
  unfolding reconcile_stages
  nil_of_accept retried h = ground arith

  -- The verdict is accepted exactly when Stage 2 calls the item substantive or Stage 1 found nothing of
  -- substance: no counterparty, no known funding source, less than $50,000, no high-attention action
  -- and no subject of concern. This is so on the first attempt and after the retry.
  pub accept_iff :
      (retried : Bool)
      → ((reconcile_stages word facts rewrite item retried).action ≡ accept)
        ↔ ((rewrite.is_substantive ≡ true) ⊎ NoSubstance)
  unfolding reconcile_stages
  accept_iff retried = (
    (λ h. elim (Bool-cases rewrite.is_substantive) [
      | inl p ↦ inl p
      | inr p ↦ inr (nil→NoSubstance p (nil_of_accept retried h))
    ]),
    (λ c. elim c [ inl p ↦ rw (substantive→nil p) | inr p ↦ rw (NoSubstance→nil p) ]),
  )

  -- A conflict is retried once: with conflicts the first attempt asks for a retry, with an instruction,
  -- and the second escalates, with none; the list of conflicts reported is not empty, and is the same.
  pub retry_once :
      (reconcile_stages word facts rewrite item false).action ≢ accept
      → let first = reconcile_stages word facts rewrite item false in
        let second = reconcile_stages word facts rewrite item true in
        (first.action ≡ retry_stage2_with_override)
        × (first.override_instruction ≢ none)
        × (second.action ≡ mark_cross_stage_conflict)
        × (second.override_instruction ≡ none)
        × (second.conflicts ≡ first.conflicts)
        × (first.conflicts ≢ [])
  unfolding reconcile_stages
  retry_once h = ground arith
