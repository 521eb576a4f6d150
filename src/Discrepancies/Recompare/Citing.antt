-- ===== src/Discrepancies/Recompare/Citing.antt =====
-- ai/transcripts/compare.py: approvals and their citations through a re-comparison.
use docket_pub.Prelude.{
  ℕ, ◌≤◌, ◌≡◌, ◌≢◌, ap, Bool, false, ◌&&◌, not, List, [], ◌∷◌, Text, ◌==◌, keep, All, In,
  All-members, arith, inl, inr, Bool-cases,
}
use docket_pub.Discrepancies.Types.{approved, Discrepancy, Table, is_approved, IsCited}
use docket_pub.Discrepancies.Approval.Guards.{AllCited}
use docket_pub.Discrepancies.Recompare.{
  NewRow, inserted_row, refresh, new_state, reconcile, drop_dismissed, make_stale, prepared,
  pool_of, goes_stale, is_dismissed, fresh,
}
use docket_pub.Discrepancies.Recompare.Loop.{reconcile_loop-All}
use docket_pub.Discrepancies.Recompare.Rows.{All-kept, All-mapped}

-- The row, if it is approved, is one of the rows, column by column.
abbrev pub WasThere : List Discrepancy → Discrepancy → Type 0
WasThere ds d = d.review_state ≡ approved → In d ds

module _ (similarity : Text → Text → ℕ) (full : ℕ) where
  module _ (meeting : ℕ) (changed : Bool) where
    -- build_rows makes rows that nobody has approved.
    abbrev pub Unapproved : List NewRow → Type 0
    Unapproved = All (λ r. r.review_state ≢ approved)

    pub prepared-All :
        (P Q : Discrepancy → Type 0) (t : Table)
        → ((d : Discrepancy) → P d → Q (make_stale similarity full meeting changed d))
        → All P t.rows
        → All Q (prepared similarity full meeting changed t).rows
    unfolding drop_dismissed
    prepared-All P Q t f h =
        All-mapped P Q (make_stale similarity full meeting changed)
          (keep (λ x. not (x.meeting_id == meeting && is_dismissed similarity full x.review_state))
            t.rows)
          f
          (All-kept P
            (λ x. not (x.meeting_id == meeting && is_dismissed similarity full x.review_state))
            t.rows h)

    make_stale-IsCited :
        (d : Discrepancy) → IsCited d → IsCited (make_stale similarity full meeting changed d)
    unfolding make_stale
    make_stale-IsCited d h =
        elim (Bool-cases
          (d.meeting_id == meeting && goes_stale similarity full changed d.review_state)) [
            | inl e ↦ rw e (λ q. cc q)
            | inr e ↦ rw e h
          ]

    pub unapproved-ne :
        (p : Discrepancy) → is_approved (new_state p) ≡ false → new_state p ≢ approved
    unapproved-ne p e q = cc (e, ap is_approved q)

    -- After a re-comparison whose new rows come in unapproved, no approved row is without a citation
    -- if none was before, whatever the model found and whatever changed.
    pub reconcile_keeps_citations :
        (rows : List NewRow) (t : Table)
        → Unapproved rows
        → AllCited t.rows
        → AllCited (reconcile similarity full meeting changed rows t).table.rows
    unfolding reconcile refresh inserted_row
    reconcile_keeps_citations rows t un cited =
        reconcile_loop-All similarity full IsCited (pool_of similarity full meeting changed t)
          t.next_id rows (fresh similarity full meeting changed t)
          (λ p m e r d q h a. absurd (unapproved-ne p e a)) (All_new rows un)
          (prepared-All IsCited IsCited t make_stale-IsCited cited) (omega arith)
      where
        All_new :
            (rs : List NewRow)
            → Unapproved rs
            → All (λ r. (i : ℕ) → t.next_id ≤ i → IsCited (inserted_row i r)) rs
        All_new [] h = tt
        All_new (r ∷ rs) h = ((λ i le a. absurd (h.0 a)), All_new rs h.1)

    make_stale-WasThere :
        (ds : List Discrepancy) (d : Discrepancy)
        → In d ds
        → WasThere ds (make_stale similarity full meeting changed d)
    unfolding make_stale
    make_stale-WasThere ds d m =
        elim (Bool-cases
          (d.meeting_id == meeting && goes_stale similarity full changed d.review_state)) [
            | inl e ↦ rw e (λ q. cc q)
            | inr e ↦ rw e (λ q. m)
          ]

    -- An approved row behind a re-comparison whose new rows come in unapproved was in the table before
    -- just as it is.
    pub reconcile_approves_nothing :
        (rows : List NewRow) (t : Table)
        → Unapproved rows
        → All (WasThere t.rows) (reconcile similarity full meeting changed rows t).table.rows
    unfolding reconcile refresh inserted_row
    reconcile_approves_nothing rows t un =
        reconcile_loop-All similarity full (WasThere t.rows)
          (pool_of similarity full meeting changed t) t.next_id rows
          (fresh similarity full meeting changed t)
          (λ p m e r d q h a. absurd (unapproved-ne p e a)) (All_new rows un)
          (prepared-All (λ d. In d t.rows) (WasThere t.rows) t (make_stale-WasThere t.rows)
            (All-members (λ d. In d t.rows) t.rows (λ d m. m)))
          (omega arith)
      where
        All_new :
            (rs : List NewRow)
            → Unapproved rs
            → All (λ r. (i : ℕ) → t.next_id ≤ i → WasThere t.rows (inserted_row i r)) rs
        All_new [] h = tt
        All_new (r ∷ rs) h = ((λ i le a. absurd (h.0 a)), All_new rs h.1)
