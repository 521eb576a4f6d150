-- ===== src/Discrepancies/Recompare/Loop.antt =====
-- ai/transcripts/compare.py: what holds of every row through the loop of reconcile.
use docket_pub.Prelude.{
  ℕ, ◌≤◌, ◌≡◌, refl, Bool, false, ◌&&◌, not, Option, none, some, List, [], ◌∷◌, ◌++◌, Text, ltb,
  leb, find?, All, In, In-keep, arith, inl, inr, ◌⊎◌, Bool-cases, ◌*◌, contains,
}
use docket_pub.Discrepancies.Types.{Discrepancy, is_approved, is_proposed, update_row-All}
use docket_pub.Discrepancies.Recompare.{
  NewRow, inserted_row, insert_row, better, best_match, match_by, match_stale, refresh, new_state,
  Progress, settle_row, match_for, free, reconcile_loop, same_category, same_id, is_comparable,
  ratio_of, close_enough,
}

All-snoc :
    (P : Discrepancy → Type 0) (ds : List Discrepancy) (d : Discrepancy)
    → All P ds
    → P d
    → All P (ds ++ d ∷ [])
All-snoc P [] d h p = (p, tt)
All-snoc P (x ∷ ds) d h p = (h.0, All-snoc P ds d h.1 p)

In-find? :
    (p : Discrepancy → Bool) (ds : List Discrepancy) (d : Discrepancy)
    → find? p ds ≡ some d
    → In d ds
In-find? p [] d h = absurd (cc)
In-find? p (x ∷ ds) d h = elim (Bool-cases (p x)) [
  | inl e ↦ let h' = rw e at h in inl (cc h')
  | inr e ↦ inr (In-find? p ds d (rw e at h))
]

module _ (similarity : Text → Text → ℕ) (full : ℕ) where
  -- The best match is one of the rows, or the one that the loop began with.
  abbrev FromList : List Discrepancy → Option Discrepancy → Option Discrepancy → Type 0
  FromList ds start none = Unit
  FromList ds start (some d) = In d ds ⊎ (start ≡ some d)

  FromList-cons :
      (s : Discrepancy) (ss : List Discrepancy) (start start' o : Option Discrepancy)
      → (start' ≡ some s) ⊎ (start' ≡ start)
      → FromList ss start' o
      → FromList (s ∷ ss) start o
  FromList-cons s ss start start' none c h = tt
  FromList-cons s ss start start' (some d) c (inl m) = inl (inr m)
  FromList-cons s ss start start' (some d) (inl e) (inr q) = inl (inl (cc (e, q)))
  FromList-cons s ss start start' (some d) (inr e) (inr q) = inr (cc (e, q))

  better_cases :
      (r : NewRow) (s : Discrepancy) (best : Option Discrepancy × ℕ)
      → ((better similarity full r s best).0 ≡ some s)
        ⊎ ((better similarity full r s best).0 ≡ best.0)
  unfolding better
  better_cases r s best =
      elim (Bool-cases
        (is_comparable similarity full r s && ltb best.1 (ratio_of similarity full r s))) [
          | inl e ↦ rw e (inl refl)
          | inr e ↦ rw e (inr refl)
        ]

  best_match-FromList :
      (r : NewRow) (ss : List Discrepancy) (best : Option Discrepancy × ℕ)
      → FromList ss best.0 (best_match similarity full r ss best).0
  unfolding best_match
  best_match-FromList r [] (none, n) = tt
  best_match-FromList r [] (some d, n) = inr refl
  best_match-FromList r (s ∷ ss) best =
      FromList-cons s ss best.0 (better similarity full r s best).0
        (best_match similarity full r ss (better similarity full r s best)).0
        (better_cases r s best) (best_match-FromList r ss (better similarity full r s best))

  abbrev pub OptionIn : List Discrepancy → Option Discrepancy → Type 0
  OptionIn ds none = Unit
  OptionIn ds (some d) = In d ds

  close_enough-In :
      (ds : List Discrepancy) (b : Option Discrepancy × ℕ)
      → FromList ds none b.0
      → OptionIn ds (close_enough similarity full b)
  close_enough-In ds (none, n) h = elim (Bool-cases (leb (8 * full) (10 * n))) [
    | inl e ↦ rw e tt
    | inr e ↦ rw e tt
  ]
  close_enough-In ds (some d, n) (inl m) = elim (Bool-cases (leb (8 * full) (10 * n))) [
    | inl e ↦ rw e m
    | inr e ↦ rw e tt
  ]
  close_enough-In ds (some d, n) (inr q) = absurd (cc q)

  match_by-In :
      (o : Option ℕ) (r : NewRow) (ds : List Discrepancy)
      → OptionIn ds (match_by similarity full o r ds)
  match_by-In none r ds =
      close_enough-In ds (best_match similarity full r ds (none, 0))
        (best_match-FromList r ds (none, 0))
  match_by-In (some e) r ds = go (find? test ds) refl
    where
      test : Discrepancy → Bool
      test s = same_category s.category r.category && same_id s.transcript_event_id (some e)

      go : (o : Option Discrepancy) → find? test ds ≡ o → OptionIn ds o
      go none q = tt
      go (some d) q = In-find? test ds d q

  OptionIn-free :
      (pool : List Discrepancy) (used : List ℕ) (o : Option Discrepancy)
      → OptionIn (free pool used) o
      → OptionIn pool o
  OptionIn-free pool used none h = tt
  OptionIn-free pool used (some d) h = (In-keep (λ p. not (contains p.id used)) d pool h).0

  pub match_for-In :
      (r : NewRow) (pool : List Discrepancy) (used : List ℕ)
      → OptionIn pool (match_for similarity full r pool used)
  unfolding match_stale
  match_for-In r pool used = elim (Bool-cases (is_proposed r.review_state)) [
    | inl e ↦ rw e (
        OptionIn-free pool used (match_by similarity full r.transcript_event_id r (free pool used))
          (match_by-In r.transcript_event_id r (free pool used)))
    | inr e ↦ rw e tt
  ]

  -- A property that insertion gives and that every update of a matched row keeps.
  module _ (P : Discrepancy → Type 0) (pool : List Discrepancy) (first_id : ℕ) where
    abbrev pub Inserts : List NewRow → Type 0
    Inserts rows = All (λ r. (i : ℕ) → first_id ≤ i → P (inserted_row i r)) rows

    abbrev pub Refreshes : Type 0
    Refreshes =
        (p : Discrepancy)
        → In p pool
        → is_approved (new_state p) ≡ false
        → (r : NewRow) (d : Discrepancy) → d.id ≡ p.id
        → P d
        → P (refresh similarity full r (new_state p) d)

    Good : Progress → Type 0
    Good s = All P s.table.rows × (first_id ≤ s.table.next_id)

    settle_row-Good :
        (r : NewRow) (o : Option Discrepancy) (s : Progress)
        → OptionIn pool o
        → Refreshes
        → ((i : ℕ) → first_id ≤ i → P (inserted_row i r))
        → Good s
        → Good (settle_row similarity full r o s)
    unfolding settle_row insert_row Good
    settle_row-Good r none s m upd ins g = (
      All-snoc P s.table.rows (inserted_row s.table.next_id r) g.0 (ins s.table.next_id g.1),
      omega (arith, g.1),
    )
    settle_row-Good r (some p) s m upd ins g = elim (Bool-cases (is_approved (new_state p))) [
      | inl e ↦ rw e g
      | inr e ↦ rw e (
        update_row-All P p.id (refresh similarity full r (new_state p)) s.table.rows
            (λ d q h. upd p m e r d q h) g.0,
        g.1,
      )
    ]

    pub reconcile_loop-All :
        (rows : List NewRow) (s : Progress)
        → Refreshes
        → Inserts rows
        → All P s.table.rows
        → first_id ≤ s.table.next_id
        → All P (reconcile_loop similarity full pool rows s).table.rows
    unfolding reconcile_loop Good
    reconcile_loop-All [] s upd ins g le = g
    reconcile_loop-All (r ∷ rs) s upd ins g le =
        let o = match_for similarity full r pool s.used in
        let next = settle_row-Good r o s (match_for-In r pool s.used) upd ins.0 (g, le) in
        reconcile_loop-All rs (settle_row similarity full r o s) upd ins.1 next.0 next.1
