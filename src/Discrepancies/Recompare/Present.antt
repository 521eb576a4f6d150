-- ===== src/Discrepancies/Recompare/Present.antt =====
-- ai/transcripts/compare.py: which rows are still there behind the DELETE of the dismissals and the
-- loop of reconcile.
use docket_pub.Prelude.{
  ℕ, ◌≡◌, refl, ◌∙◌, Bool, true, ◌&&◌, not, Option, none, some, List, [], ◌∷◌, ◌++◌, Text, ◌==◌,
  keep, map, All, inl, inr, ◌⊎◌, arith, Bool-cases,
}
use docket_pub.Discrepancies.Types.{rejected, Discrepancy, Table, is_approved, update_row}
use docket_pub.Discrepancies.Recompare.{
  NewRow, inserted_row, insert_row, refresh, new_state, Progress, settle_row, match_for,
  reconcile_loop, reconcile, drop_dismissed, make_stale, pool_of, is_dismissed, fresh,
}
use docket_pub.Discrepancies.Recompare.Policy.{make_stale_id}

-- Some row has the id.
abbrev pub HasId : ℕ → List Discrepancy → Type 0
HasId k [] = ⊥
HasId k (d ∷ ds) = (d.id ≡ k) ⊎ HasId k ds

module _ (k : ℕ) where
  HasId-keep :
      (p : Discrepancy → Bool) (ds : List Discrepancy)
      → All (λ d. d.id ≡ k → p d ≡ true) ds
      → HasId k ds
      → HasId k (keep p ds)
  HasId-keep p [] f h = h
  HasId-keep p (d ∷ ds) f (inl e) = rw (f.0 e) (inl e)
  HasId-keep p (d ∷ ds) f (inr h) = elim (Bool-cases (p d)) [
    | inl e ↦ rw e (inr (HasId-keep p ds f.1 h))
    | inr e ↦ rw e (HasId-keep p ds f.1 h)
  ]

  HasId-map :
      (f : Discrepancy → Discrepancy) (ds : List Discrepancy)
      → ((d : Discrepancy) → (f d).id ≡ d.id)
      → HasId k ds
      → HasId k (map f ds)
  HasId-map f [] same h = h
  HasId-map f (d ∷ ds) same (inl e) = inl (same d ∙ e)
  HasId-map f (d ∷ ds) same (inr h) = inr (HasId-map f ds same h)

  HasId-update_row :
      (j : ℕ) (f : Discrepancy → Discrepancy) (ds : List Discrepancy)
      → ((d : Discrepancy) → (f d).id ≡ d.id)
      → HasId k ds
      → HasId k (update_row j f ds)
  unfolding update_row
  HasId-update_row j f [] same h = h
  HasId-update_row j f (d ∷ ds) same (inl e) = elim (Bool-cases (d.id == j)) [
    | inl q ↦ rw q (inl (same d ∙ e))
    | inr q ↦ rw q (inl e)
  ]
  HasId-update_row j f (d ∷ ds) same (inr h) = inr (HasId-update_row j f ds same h)

  HasId-snoc : (e : Discrepancy) (ds : List Discrepancy) → HasId k ds → HasId k (ds ++ e ∷ [])
  HasId-snoc e [] h = absurd h
  HasId-snoc e (d ∷ ds) (inl q) = inl q
  HasId-snoc e (d ∷ ds) (inr h) = inr (HasId-snoc e ds h)

  module _ (similarity : Text → Text → ℕ) (full : ℕ) where
    pub refresh_id :
        (r : NewRow) (p d : Discrepancy) → (refresh similarity full r (new_state p) d).id ≡ d.id
    unfolding refresh
    refresh_id r p d = refl

    HasId-settle_row :
        (r : NewRow) (o : Option Discrepancy) (s : Progress)
        → HasId k s.table.rows
        → HasId k (settle_row similarity full r o s).table.rows
    unfolding settle_row insert_row
    HasId-settle_row r none s h = HasId-snoc (inserted_row s.table.next_id r) s.table.rows h
    HasId-settle_row r (some p) s h = elim (Bool-cases (is_approved (new_state p))) [
      | inl e ↦ rw e h
      | inr e ↦ rw e (
          HasId-update_row p.id (refresh similarity full r (new_state p)) s.table.rows
            (refresh_id r p) h)
    ]

    HasId-loop :
        (pool : List Discrepancy) (rows : List NewRow) (s : Progress)
        → HasId k s.table.rows
        → HasId k (reconcile_loop similarity full pool rows s).table.rows
    unfolding reconcile_loop
    HasId-loop pool [] s h = h
    HasId-loop pool (r ∷ rs) s h =
        let o = match_for similarity full r pool s.used in
        HasId-loop pool rs (settle_row similarity full r o s) (HasId-settle_row r o s h)

    -- An id all of whose rows are rejected is still there after a re-comparison.
    pub rejected-HasId :
        (meeting : ℕ) (changed : Bool) (rows : List NewRow) (t : Table)
        → All (λ d. d.id ≡ k → d.review_state ≡ rejected) t.rows
        → HasId k t.rows
        → HasId k (reconcile similarity full meeting changed rows t).table.rows
    unfolding reconcile drop_dismissed
    rejected-HasId meeting changed rows t r h =
        let stays = λ (d : Discrepancy).
          not (d.meeting_id == meeting && is_dismissed similarity full d.review_state) in
        HasId-loop (pool_of similarity full meeting changed t) rows
          (fresh similarity full meeting changed t)
          (HasId-map (make_stale similarity full meeting changed) (keep stays t.rows)
            (make_stale_id similarity full meeting changed)
            (HasId-keep stays t.rows (kept t.rows r) h))
      where
        kept :
            (ds : List Discrepancy)
            → All (λ d. d.id ≡ k → d.review_state ≡ rejected) ds
            → All
                (λ d.
                  d.id ≡ k
                  → not (d.meeting_id == meeting && is_dismissed similarity full d.review_state)
                    ≡ true)
                ds
        kept [] q = tt
        kept (d ∷ ds) q = ((λ e. let s = q.0 e in ground (arith, s)), kept ds q.1)
