-- ===== src/Discrepancies/Recompare/Policy.antt =====
-- ai/transcripts/compare.py: what a re-comparison does to rows that a person has reviewed.
use docket_pub.Prelude.{
  ℕ, ◌≡◌, ◌≢◌, sym, ◌∙◌, ap, Bool, true, false, ◌&&◌, not, Option, none, some, List, [], ◌∷◌, Text,
  ◌==◌, keep, All, All-In, In, In-keep, arith, inl, inr, ◌⊎◌, Bool-cases,
}
use docket_pub.Discrepancies.Types.{approved, Discrepancy, Table, is_approved}
use docket_pub.Discrepancies.Recompare.{
  NewRow, inserted_row, insert_row, refresh, new_state, Progress, settle_row, match_for,
  reconcile_loop, reconcile, drop_dismissed, make_stale, prepared, pool_of, is_pooled, is_dismissed,
  fresh,
}
use docket_pub.Discrepancies.Recompare.Loop.{match_for-In, OptionIn}
use docket_pub.Discrepancies.Recompare.Rows.{
  All-kept, All-mapped, In-mapped, In-kept, In-snoc, In-updated,
}

module _ (similarity : Text → Text → ℕ) (full : ℕ) where
  -- A row is safe from the loop if whatever pooled row has its id is approved.
  abbrev IsSafe : List Discrepancy → Discrepancy → Type 0
  IsSafe pool d = (p : Discrepancy) → In p pool → d.id ≡ p.id → is_approved (new_state p) ≡ true

  settle_row-In :
      (pool : List Discrepancy) (d : Discrepancy) (r : NewRow) (o : Option Discrepancy)
      (s : Progress)
      → IsSafe pool d
      → OptionIn similarity full pool o
      → In d s.table.rows
      → In d (settle_row similarity full r o s).table.rows
  unfolding settle_row insert_row
  settle_row-In pool d r none s safe m h = In-snoc d (inserted_row s.table.next_id r) s.table.rows h
  settle_row-In pool d r (some p) s safe m h = elim (Bool-cases (is_approved (new_state p))) [
    | inl e ↦ rw e h
    | inr e ↦ rw e (
        In-updated p.id (refresh similarity full r (new_state p)) d s.table.rows
          (λ q. cc (safe p m q, e)) h)
  ]

  reconcile_loop-In :
      (pool : List Discrepancy) (d : Discrepancy) (rows : List NewRow) (s : Progress)
      → IsSafe pool d
      → In d s.table.rows
      → In d (reconcile_loop similarity full pool rows s).table.rows
  unfolding reconcile_loop
  reconcile_loop-In pool d [] s safe h = h
  reconcile_loop-In pool d (r ∷ rs) s safe h =
      let o = match_for similarity full r pool s.used in
      reconcile_loop-In pool d rs (settle_row similarity full r o s) safe
        (settle_row-In pool d r o s safe (match_for-In similarity full r pool s.used) h)

  module _ (meeting : ℕ) (changed : Bool) where
    abbrev after : List NewRow → Table → Table
    after rows t = (reconcile similarity full meeting changed rows t).table

    -- Rows that the pass may not touch: those of other meetings, and on unchanged input the approved.
    abbrev pub IsProtected : Discrepancy → Type 0
    IsProtected d = (d.meeting_id ≢ meeting) ⊎ ((d.review_state ≡ approved) × (changed ≡ false))

    make_stale-protected :
        (d : Discrepancy) → IsProtected d → make_stale similarity full meeting changed d ≡ d
    unfolding make_stale
    make_stale-protected d h = ground arith

    pub make_stale_id : (d : Discrepancy) → (make_stale similarity full meeting changed d).id ≡ d.id
    unfolding make_stale
    make_stale_id d = ground arith

    protected-kept :
        (d : Discrepancy)
        → IsProtected d
        → not (d.meeting_id == meeting && is_dismissed similarity full d.review_state) ≡ true
    protected-kept d h = ground arith

    -- The only row with the id of `d` is `d`.
    abbrev pub IsOnly : Discrepancy → List Discrepancy → Type 0
    IsOnly d = All (λ x. x.id ≡ d.id → x ≡ d)

    prepared-IsOnly :
        (d : Discrepancy) (t : Table)
        → IsProtected d
        → IsOnly d t.rows
        → IsOnly d (prepared similarity full meeting changed t).rows
    unfolding drop_dismissed
    prepared-IsOnly d t h only =
        All-mapped (λ x. x.id ≡ d.id → x ≡ d) (λ x. x.id ≡ d.id → x ≡ d)
          (make_stale similarity full meeting changed)
          (keep (λ x. not (x.meeting_id == meeting && is_dismissed similarity full x.review_state))
            t.rows)
          (λ x same q.
            let x≡d = same (sym (make_stale_id x) ∙ q) in
            ap (make_stale similarity full meeting changed) x≡d ∙ make_stale-protected d h)
          (All-kept (λ x. x.id ≡ d.id → x ≡ d)
            (λ x. not (x.meeting_id == meeting && is_dismissed similarity full x.review_state))
            t.rows only)

    pooled-protected :
        (d : Discrepancy)
        → IsProtected d
        → is_pooled similarity full meeting changed d ≡ true
        → is_approved (new_state d) ≡ true
    pooled-protected d h p = ground arith

    protected-IsSafe :
        (d : Discrepancy) (t : Table)
        → IsProtected d
        → IsOnly d t.rows
        → IsSafe (pool_of similarity full meeting changed t) d
    protected-IsSafe d t h only p m q =
        let (m', pooled) =
          In-keep (is_pooled similarity full meeting changed) p
            (prepared similarity full meeting changed t).rows m in
        let p≡d =
          All-In (λ x. x.id ≡ d.id → x ≡ d) p (prepared similarity full meeting changed t).rows
            (prepared-IsOnly d t h only) m' (sym q) in
        rw p≡d (pooled-protected d h (rw p≡d at pooled))

    -- A re-comparison leaves every column of a row of the table, alone with its id, as it is if the
    -- row belongs to another meeting, or if it is approved and neither the minutes nor the transcript
    -- changed.
    pub protected_rows_stay :
        (rows : List NewRow) (t : Table) (d : Discrepancy)
        → IsProtected d
        → IsOnly d t.rows
        → In d t.rows
        → In d (reconcile similarity full meeting changed rows t).table.rows
    unfolding reconcile drop_dismissed
    protected_rows_stay rows t d h only m =
        reconcile_loop-In (pool_of similarity full meeting changed t) d rows
          (fresh similarity full meeting changed t) (protected-IsSafe d t h only)
          (In-mapped (make_stale similarity full meeting changed) d
            (keep
              (λ x. not (x.meeting_id == meeting && is_dismissed similarity full x.review_state))
              t.rows)
            (make_stale-protected d h)
            (In-kept
              (λ x. not (x.meeting_id == meeting && is_dismissed similarity full x.review_state)) d
              t.rows (protected-kept d h) m))
