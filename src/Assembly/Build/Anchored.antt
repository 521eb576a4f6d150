-- ===== src/Assembly/Build/Anchored.antt =====
-- ai/transcripts/compare.py: what build_rows hands to reconcile.
use docket_pub.Prelude.{
  ℕ, ◌≡◌, ◌≢◌, ◌↔◌, refl, Bool, true, Option, none, some, List, [], ◌∷◌, Text, arith, All,
  All-append, Bool-cases, inl, inr, keep,
}
use docket_pub.Discrepancies.Types.{approved, Table}
use docket_pub.Discrepancies.Recompare.{NewRow, reconcile}
use docket_pub.Discrepancies.Recompare.Citing.{WasThere, reconcile_approves_nothing}
use docket_pub.Alignment.Types.{Event, Candidate}
use docket_pub.Assembly.Types.{Context, Verdict, HuntedDiscrepancy}
use docket_pub.Assembly.Nearest.{nearest_event, nearest_of, shared_event}
use docket_pub.Assembly.Rows.{
  by_id, base, vote_outcome_row, vote_outcome_rows, real_row, dismissed_row, verdict_row,
  verdict_rows, is_vote_outcome,
}
use docket_pub.Assembly.Hunted.{
  hunted_row, hunted_as, hunted_rows, anchors_for, anchor_by_items, anchor_anywhere, anchor_minutes,
  anchor_transcript, Anchors, Anchor, is_unanchored,
}
use docket_pub.Assembly.Build.{build_rows, aligner_rows, has_anchor}

abbrev IsOpen : NewRow → Type 0
IsOpen r = r.review_state ≢ approved

keep-All :
    (P : NewRow → Type 0) (p : NewRow → Bool) (rs : List NewRow) → All P rs → All P (keep p rs)
keep-All P p [] h = tt
keep-All P p (r ∷ rs) h = elim (Bool-cases (p r)) [
  | inl e ↦ rw e (h.0, keep-All P p rs h.1)
  | inr e ↦ rw e (keep-All P p rs h.1)
]

unanchored→none :
    (ts ms : List Event) (h : HuntedDiscrepancy) (refs : List ℕ) (a : Anchors)
    → is_unanchored (anchor_by_items ts ms h refs a) ≡ true
    → (ts ≡ []) × (ms ≡ [])
unfolding anchor_by_items anchor_anywhere anchor_minutes anchor_transcript
unanchored→none [] [] h refs a u = (refl, refl)
unanchored→none (t ∷ ts) ms h refs (some x, o) u = absurd (ground arith)
unanchored→none (t ∷ ts) ms h refs (none, some x) u = absurd (ground arith)
unanchored→none (t ∷ ts) ms h refs (none, none) u = absurd (ground arith)
unanchored→none [] (m ∷ ms) h refs (some x, o) u = absurd (ground arith)
unanchored→none [] (m ∷ ms) h refs (none, some x) u = absurd (ground arith)
unanchored→none [] (m ∷ ms) h refs (none, none) u = absurd (ground arith)

module _ (ctx : Context) where
  no_events :
      (h : HuntedDiscrepancy) (refs : List ℕ) → is_unanchored (anchors_for [] [] ctx h refs) ≡ true
  unfolding anchors_for anchor_by_items anchor_anywhere anchor_minutes anchor_transcript
      nearest_event nearest_of shared_event
  no_events h refs = ground arith

module _ (ctx : Context) where
  vote_outcome_row-IsOpen : (c : Candidate) → IsOpen (vote_outcome_row ctx c)
  unfolding vote_outcome_row base
  vote_outcome_row-IsOpen c = ground arith

  vote_outcome_rows-IsOpen : (cs : List Candidate) → All IsOpen (vote_outcome_rows ctx cs)
  unfolding vote_outcome_rows
  vote_outcome_rows-IsOpen [] = tt
  vote_outcome_rows-IsOpen (c ∷ cs) = elim (Bool-cases (is_vote_outcome c.category)) [
    | inl e ↦ rw e (vote_outcome_row-IsOpen c, vote_outcome_rows-IsOpen cs)
    | inr e ↦ rw e (vote_outcome_rows-IsOpen cs)
  ]

  verdict_row-IsOpen : (o : Option Candidate) (v : Verdict) → All IsOpen (verdict_row ctx o v)
  unfolding real_row dismissed_row base
  verdict_row-IsOpen none v = tt
  verdict_row-IsOpen (some c) v = ground arith

  verdict_rows-IsOpen :
      (cs : List Candidate) (vs : List Verdict) → All IsOpen (verdict_rows ctx cs vs)
  unfolding verdict_rows
  verdict_rows-IsOpen cs [] = tt
  verdict_rows-IsOpen cs (v ∷ vs) =
      All-append IsOpen _ _ (verdict_row-IsOpen (by_id cs v.candidate_id) v)
        (verdict_rows-IsOpen cs vs)

  module _ (ts ms : List Event) where
    hunted_as-IsOpen :
        (taken : List Anchor) (h : HuntedDiscrepancy) (refs : List ℕ) (a : Anchors)
        → All IsOpen (hunted_as ts ms ctx taken h refs a)
    unfolding hunted_row base
    hunted_as-IsOpen taken h refs a = ground arith

    hunted_rows-IsOpen :
        (valid : Option (List ℕ)) (taken : List Anchor) (hs : List HuntedDiscrepancy)
        → All IsOpen (hunted_rows ts ms ctx valid taken hs)
    unfolding hunted_rows
    hunted_rows-IsOpen valid taken [] = tt
    hunted_rows-IsOpen valid taken (h ∷ hs) =
        All-append IsOpen _ _ (hunted_as-IsOpen taken h _ _) (hunted_rows-IsOpen valid taken hs)

    build_rows-IsOpen :
        (cs : List Candidate) (vs : List Verdict) (hs : List HuntedDiscrepancy)
        (valid : Option (List ℕ))
        → All IsOpen (build_rows ctx cs vs hs ts ms valid)
    unfolding build_rows aligner_rows
    build_rows-IsOpen cs vs hs valid = keep-All IsOpen has_anchor _ (
        All-append IsOpen _ _
          (All-append IsOpen _ _ (vote_outcome_rows-IsOpen cs) (verdict_rows-IsOpen cs vs))
          (hunted_rows-IsOpen valid _ hs))

    -- A compare writes no approval of its own: an approved row behind build_rows and reconcile is a row
    -- that was approved in the table before, every column as it was, whatever the aligner, the judge
    -- and the hunter found and whatever changed.
    pub compare_approves_nothing :
        (similarity : Text → Text → ℕ) (full : ℕ) (changed : Bool)
        → (cs : List Candidate) (vs : List Verdict) (hs : List HuntedDiscrepancy)
          (valid : Option (List ℕ)) (t : Table)
        → All
            (WasThere t.rows)
            (reconcile similarity full ctx.meeting_id changed
              (build_rows ctx cs vs hs ts ms valid)
              t).table.rows
    compare_approves_nothing similarity full changed cs vs hs valid t =
        reconcile_approves_nothing similarity full ctx.meeting_id changed _ t
          (build_rows-IsOpen cs vs hs valid)

    -- A finding of the hunter is left with no event to anchor it exactly if neither timeline has any
    -- event: wherever its quotes are found, or if they are found nowhere, some event is taken.
    pub hunted_unanchored :
        (h : HuntedDiscrepancy) (refs : List ℕ)
        → (is_unanchored (anchors_for ts ms ctx h refs) ≡ true) ↔ ((ts ≡ []) × (ms ≡ []))
    unfolding anchors_for
    hunted_unanchored h refs =
        (λ u. unanchored→none ts ms h refs _ u, λ p. rw (p.0, p.1) (no_events ctx h refs))
