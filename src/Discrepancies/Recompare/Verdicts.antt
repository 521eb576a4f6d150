-- ===== src/Discrepancies/Recompare/Verdicts.antt =====
-- ai/transcripts/compare.py: approvals on a changed pass, rejections on any pass, and the counts.
use docket_pub.Prelude.{
  ℕ, suc, ◌+◌, ◌≤◌, ◌<◌, ◌≡◌, ◌≢◌, refl, sym, ◌∙◌, ap, Bool, true, Option, none, some, List, [],
  ◌∷◌, Text, All, All-In, In-keep, arith, inl, inr, Bool-cases, length, length-append,
}
use docket_pub.Discrepancies.Types.{approved, rejected, Discrepancy, Table, is_approved, update_row}
use docket_pub.Discrepancies.Recompare.{
  NewRow, inserted_row, insert_row, refresh, new_state, Progress, settle_row, match_for,
  reconcile_loop, reconcile, make_stale, prepared, pool_of, is_pooled, fresh, write_rows,
}
use docket_pub.Discrepancies.Recompare.Loop.{reconcile_loop-All}
use docket_pub.Discrepancies.Recompare.Policy.{make_stale_id}
use docket_pub.Discrepancies.Recompare.Present.{HasId, refresh_id, rejected-HasId}
use docket_pub.Discrepancies.Recompare.Citing.{Unapproved, prepared-All, unapproved-ne}

module _ (similarity : Text → Text → ℕ) (full : ℕ) (meeting : ℕ) where
  abbrev pub Unsigned : Discrepancy → Type 0
  Unsigned d = d.meeting_id ≡ meeting → d.review_state ≢ approved

  make_stale-Unsigned :
      (d : Discrepancy) → Unit {0} → Unsigned (make_stale similarity full meeting true d)
  unfolding make_stale
  make_stale-Unsigned d _ = ground arith

  All-Unit : (ds : List Discrepancy) → All (λ _. Unit {0}) ds
  All-Unit [] = tt
  All-Unit (d ∷ ds) = (tt, All-Unit ds)

  -- After a pass on changed minutes or a changed transcript, whose new rows come in unapproved, no row
  -- of the meeting is approved: every approval of the old text has to be given again.
  pub changed_pass_unapproves :
      (rows : List NewRow) (t : Table)
      → Unapproved similarity full meeting true rows
      → All Unsigned (reconcile similarity full meeting true rows t).table.rows
  unfolding reconcile refresh inserted_row
  changed_pass_unapproves rows t un =
      reconcile_loop-All similarity full Unsigned (pool_of similarity full meeting true t) t.next_id
        rows (fresh similarity full meeting true t)
        (λ p m e r d q h _. unapproved-ne similarity full meeting true p e) (All_new rows un)
        (prepared-All similarity full meeting true (λ _. Unit) Unsigned t make_stale-Unsigned
          (All-Unit t.rows))
        (omega arith)
    where
      All_new :
          (rs : List NewRow)
          → Unapproved similarity full meeting true rs
          → All (λ r. (i : ℕ) → t.next_id ≤ i → Unsigned (inserted_row i r)) rs
      All_new [] h = tt
      All_new (r ∷ rs) h = ((λ i le _. h.0), All_new rs h.1)

  module _ (changed : Bool) where
    -- The verdict of a reviewer who rejected a row.
    pub record Rejection : Type 0 where
      pub reason : Option Text
      pub at : Option ℕ
      pub by : Option Text
      pub noted : Option Text

    abbrev pub IsRejectedAs : Rejection → Discrepancy → Type 0
    IsRejectedAs v d =
        (d.review_state ≡ rejected)
        × (d.reject_reason ≡ v.reason)
        × (d.reviewed_at ≡ v.at)
        × (d.reviewed_by ≡ v.by)
        × (d.review_note ≡ v.noted)

    abbrev pub Stands : ℕ → Rejection → Discrepancy → Type 0
    Stands k v d = d.id ≡ k → IsRejectedAs v d

    make_stale-Rejected :
        (v : Rejection) (d : Discrepancy)
        → IsRejectedAs v d
        → IsRejectedAs v (make_stale similarity full meeting changed d)
    unfolding make_stale
    make_stale-Rejected v d h = ground arith

    refresh-Rejected :
        (v : Rejection) (r : NewRow) (p d : Discrepancy)
        → IsRejectedAs v p
        → IsRejectedAs v d
        → IsRejectedAs v (refresh similarity full r (new_state p) d)
    unfolding refresh
    refresh-Rejected v r p d hp hd = ground arith

    prepared-Stands :
        (k : ℕ) (v : Rejection) (t : Table)
        → All (Stands k v) t.rows
        → All (Stands k v) (prepared similarity full meeting changed t).rows
    prepared-Stands k v t =
        prepared-All similarity full meeting changed (Stands k v) (Stands k v) t (λ d h q.
          make_stale-Rejected v d (h (sym (make_stale_id similarity full meeting changed d) ∙ q)))

    inserted_id : (i : ℕ) (r : NewRow) → (inserted_row i r).id ≡ i
    unfolding inserted_row
    inserted_id i r = refl

    reconcile-Stands :
        (k : ℕ) (v : Rejection) (rows : List NewRow) (t : Table)
        → k < t.next_id
        → All (Stands k v) t.rows
        → All (Stands k v) (reconcile similarity full meeting changed rows t).table.rows
    unfolding reconcile
    reconcile-Stands k v rows t old h =
        reconcile_loop-All similarity full (Stands k v) (pool_of similarity full meeting changed t)
          t.next_id rows (fresh similarity full meeting changed t)
          (λ p m e r d q stands i.
            let d_id = sym (refresh_id k similarity full r p d) ∙ i in
            let (m', _) =
              In-keep (is_pooled similarity full meeting changed) p
                (prepared similarity full meeting changed t).rows m in
            let p_stands =
              All-In (Stands k v) p (prepared similarity full meeting changed t).rows
                (prepared-Stands k v t h) m' in
            refresh-Rejected v r p d (p_stands (sym q ∙ d_id)) (stands d_id))
          (All_new rows) (prepared-Stands k v t h) (omega arith)
      where
        All_new :
            (rs : List NewRow)
            → All (λ r. (i : ℕ) → t.next_id ≤ i → Stands k v (inserted_row i r)) rs
        All_new [] = tt
        All_new (r ∷ rs) = ((λ i le q. let e = inserted_id i r in absurd (omega arith)), All_new rs)

    Stands-rejected :
        (k : ℕ) (v : Rejection) (ds : List Discrepancy)
        → All (Stands k v) ds
        → All (λ d. d.id ≡ k → d.review_state ≡ rejected) ds
    Stands-rejected k v [] h = tt
    Stands-rejected k v (d ∷ ds) h = ((λ q. (h.0 q).0), Stands-rejected k v ds h.1)

    -- A rejection stands through every re-comparison, changed input or not: a row whose id was given
    -- out, and which a reviewer rejected, is neither deleted nor put back in question. The table still
    -- has a row of that id, and each that it has is rejected, with the reason, reviewer, time and note
    -- of the rejection, though its text may be refreshed.
    pub rejections_stand :
        (k : ℕ) (v : Rejection) (rows : List NewRow) (t : Table)
        → k < t.next_id
        → HasId k t.rows
        → All (Stands k v) t.rows
        → let after = (reconcile similarity full meeting changed rows t).table.rows in
          HasId k after × All (Stands k v) after
    rejections_stand k v rows t old here h = (
      rejected-HasId k similarity full meeting changed rows t (Stands-rejected k v t.rows h) here,
      reconcile-Stands k v rows t old h,
    )

  -- The counts of the progress, and the rows it holds.
  abbrev Counted : ℕ → ℕ → Progress → Type 0
  Counted n size s =
      (s.inserted + s.updated + s.kept ≡ n) × (length s.table.rows ≡ size + s.inserted)

  length-update_row :
      (k : ℕ) (f : Discrepancy → Discrepancy) (ds : List Discrepancy)
      → length (update_row k f ds) ≡ length ds
  unfolding update_row
  length-update_row k f [] = refl
  length-update_row k f (d ∷ ds) = ap suc (length-update_row k f ds)

  settle_row-Counted :
      (r : NewRow) (o : Option Discrepancy) (s : Progress) (n size : ℕ)
      → Counted n size s
      → Counted (n + 1) size (settle_row similarity full r o s)
  unfolding settle_row insert_row
  settle_row-Counted r none s n size h = (
    omega (arith, h.0),
    omega (arith, h.1, length-append s.table.rows (inserted_row s.table.next_id r ∷ [])),
  )
  settle_row-Counted r (some p) s n size h = elim (Bool-cases (is_approved (new_state p))) [
    | inl e ↦ rw e (omega (arith, h.0), h.1)
    | inr e ↦ rw e (
      omega (arith, h.0),
      length-update_row p.id (refresh similarity full r (new_state p)) s.table.rows ∙ h.1,
    )
  ]

  loop-Counted :
      (pool : List Discrepancy) (rows : List NewRow) (s : Progress) (n size : ℕ)
      → Counted n size s
      → Counted (n + length rows) size (reconcile_loop similarity full pool rows s)
  unfolding reconcile_loop
  loop-Counted pool [] s n size h = (omega (arith, h.0), h.1)
  loop-Counted pool (r ∷ rs) s n size h =
      let o = match_for similarity full r pool s.used in
      let (a, b) =
        loop-Counted pool rs (settle_row similarity full r o s) (n + 1) size
          (settle_row-Counted r o s n size h) in
      (omega (arith, a), b)

  -- Every row of the comparison is inserted, updated or kept, so write_rows returns their number; and
  -- the table grows by exactly the inserted ones over what deleting the dismissals left.
  pub every_row_counted :
      (changed : Bool) (rows : List NewRow) (t : Table)
      → let s = reconcile similarity full meeting changed rows t in
        (write_rows similarity full meeting changed rows t ≡ length rows)
        × (length s.table.rows
            ≡ length (prepared similarity full meeting changed t).rows + s.inserted)
  unfolding write_rows reconcile
  every_row_counted changed rows t =
      let (a, b) =
        loop-Counted (pool_of similarity full meeting changed t) rows
          (fresh similarity full meeting changed t) 0
          (length (prepared similarity full meeting changed t).rows) (refl, omega arith) in
      (omega (arith, a), b)
