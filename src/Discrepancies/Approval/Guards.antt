-- ===== src/Discrepancies/Approval/Guards.antt =====
-- services/discrepancies.py: what may be approved, and what a refused action leaves.
use docket_pub.Prelude.{
  ℕ, ◌≡◌, ◌≢◌, ◌↔◌, true, Option, none, some, List, Text, All, arith, inl, inr, ◌⊎◌, Bool-cases,
}
use docket_pub.Discrepancies.Types.{
  proposed, missing, Discrepancy, is_proposed, update_row, IsCited, update_row-All,
}
use docket_pub.Discrepancies.Citations.{Found}
use docket_pub.Discrepancies.Approval.{
  Result, ok, err, lookup_error, needs_citation, not_proposed, Updates, approve_row,
  approve_guarded, reject_guarded, may_approve, row_of, approve_found, approve, reject, reject_row,
  reject_found, reject_with, given, coalesce, ◌>>=◌,
}
use docket_pub.Discrepancies.Approval.Edit.{Sources, edit_and_approve, edit_found, edits}

-- The row as the approval would leave it has a citation.
abbrev pub HasCitation : Updates → Discrepancy → Type 0
HasCitation u d = coalesce u.match_kind d.citation_match ≢ missing

may_approve_iff :
    (u : Updates) (d : Discrepancy)
    → (may_approve u d ≡ true) ↔ ((d.review_state ≡ proposed) × HasCitation u d)
unfolding may_approve
may_approve_iff u d = (λ h. ground arith, λ h. ground arith)

-- The result of approve on the row with the id, by cases.
abbrev pub Verdict :
    (now k : ℕ) (actor : Text) (noted : Option Text)
    → Updates
    → List Discrepancy
    → Option Discrepancy
    → Result (List Discrepancy)
    → Type 0
Verdict now k actor noted u ds none r = r ≡ err lookup_error
Verdict now k actor noted u ds (some d) r =
    ((d.review_state ≡ proposed)
      × HasCitation u d
      × (r ≡ ok (update_row d.id (approve_guarded now actor (given noted) u) ds)))
    ⊎ (¬ ((d.review_state ≡ proposed) × HasCitation u d)
        × (((d.citation_match ≡ missing) × (r ≡ err needs_citation))
            ⊎ ((d.citation_match ≢ missing) × (r ≡ err (not_proposed d.review_state)))))

module _ (now : ℕ) (actor : Text) where
  approve_row-IsCited :
      (noted : Option Text) (u : Updates) (d : Discrepancy)
      → HasCitation u d
      → IsCited (approve_row now actor noted u d)
  unfolding approve_row
  approve_row-IsCited noted u d c _ = c

  reject_row-IsCited : (reason : Text) (d : Discrepancy) → IsCited (reject_row now actor reason d)
  unfolding reject_row
  reject_row-IsCited reason d e = cc e

  approve_guarded-IsCited :
      (noted : Option Text) (u : Updates) (d : Discrepancy)
      → IsCited d
      → IsCited (approve_guarded now actor noted u d)
  approve_guarded-IsCited noted u d h = elim (Bool-cases (may_approve u d)) [
    | inl e ↦ rw e (approve_row-IsCited noted u d ((may_approve_iff u d).0 e).1)
    | inr e ↦ rw e h
  ]

  reject_guarded-IsCited :
      (reason : Text) (d : Discrepancy) → IsCited d → IsCited (reject_guarded now actor reason d)
  reject_guarded-IsCited reason d h = elim (Bool-cases (is_proposed d.review_state)) [
    | inl e ↦ rw e (reject_row-IsCited reason d)
    | inr e ↦ rw e h
  ]

-- Holds of the rows that an action returns; a refused action returns none.
abbrev pub OnOk : (List Discrepancy → Type 0) → Result (List Discrepancy) → Type 0
OnOk P (ok ds) = P ds
OnOk P (err e) = Unit

abbrev pub AllCited : List Discrepancy → Type 0
AllCited ds = All IsCited ds

module _ (now k : ℕ) (actor : Text) (ds : List Discrepancy) (cited : AllCited ds) where
  approve-OnOk :
      (noted : Option Text) (u : Updates) → OnOk AllCited (approve now k actor noted u ds)
  unfolding approve
  approve-OnOk noted u = step (row_of k ds)
    where
      step : (o : Option Discrepancy) → OnOk AllCited (approve_found now actor (given noted) u ds o)
      step none = tt
      step (some d) = elim (Bool-cases (may_approve u d)) [
        | inl e ↦ rw e (
            update_row-All IsCited d.id (approve_guarded now actor (given noted) u) ds
              (λ x _ h. approve_guarded-IsCited now actor (given noted) u x h) cited)
        | inr e ↦ rw e tt
      ]

  reject-OnOk : (reason : Text) → OnOk AllCited (reject now k actor reason ds)
  unfolding reject
  reject-OnOk reason = step (given (some reason))
    where
      found : (r : Text) (o : Option Discrepancy) → OnOk AllCited (reject_found now actor r ds o)
      found r none = tt
      found r (some d) = elim (Bool-cases (is_proposed d.review_state)) [
        | inl e ↦ rw e (
            update_row-All IsCited d.id (reject_guarded now actor r) ds
              (λ x _ h. reject_guarded-IsCited now actor r x h) cited)
        | inr e ↦ rw e tt
      ]

      step : (o : Option Text) → OnOk AllCited (reject_with now k actor ds o)
      step none = tt
      step (some r) = found r (row_of k ds)

  module _ (find_citation : Text → Text → Found) (sources : Sources) (title description : Text)
      (te me : Option Text) where
    after_edits : (r : Result Updates) → OnOk AllCited (r >>= λ u. approve now k actor none u ds)
    after_edits (ok u) = approve-OnOk none u
    after_edits (err e) = tt

    edit-OnOk :
        OnOk AllCited
          (edit_and_approve find_citation sources now k actor title description te me ds)
    unfolding edit_and_approve
    edit-OnOk = step (row_of k ds)
      where
        step :
            (o : Option Discrepancy)
            → OnOk AllCited
                (edit_found find_citation sources now k actor title description te me ds o)
        step none = tt
        step (some d) = elim (Bool-cases (is_proposed d.review_state)) [
          | inl e ↦ rw e (after_edits (edits find_citation sources d title description te me))
          | inr e ↦ rw e tt
        ]

    -- Whatever an admin does, approve, reject, or edit and approve, no approved row is without a
    -- citation afterwards if none was before.
    pub actions_keep_citations :
        (noted : Option Text) (u : Updates) (reason : Text)
        → OnOk AllCited (approve now k actor noted u ds)
          × OnOk AllCited (reject now k actor reason ds)
          × OnOk AllCited
              (edit_and_approve find_citation sources now k actor title description te me ds)
    actions_keep_citations noted u reason = (approve-OnOk noted u, reject-OnOk reason, edit-OnOk)
