-- ===== src/Assembly/Build.antt =====
-- ai/transcripts/compare.py: build_rows.
pub mod Anchored
use docket_pub.Prelude.{ℕ, Bool, true, false, Option, none, some, List, ◌++◌, keep}
use docket_pub.Discrepancies.Recompare.{NewRow}
use docket_pub.Alignment.Types.{Event, Candidate}
use docket_pub.Assembly.Types.{Context, Verdict, HuntedDiscrepancy}
use docket_pub.Assembly.Rows.{vote_outcome_rows, verdict_rows}
use docket_pub.Assembly.Hunted.{taken_by, hunted_rows}

abbrev pub is_some_id : Option ℕ → Bool
is_some_id none = false
is_some_id (some _) = true

abbrev pub has_anchor : NewRow → Bool
has_anchor r = elim r.transcript_event_id [ some _ ↦ true | none ↦ is_some_id r.minutes_event_id ]

module _ (ctx : Context) where
  -- The rows of the aligner's candidates: the votes, then the verdicts.
  unfoldable pub aligner_rows : List Candidate → List Verdict → List NewRow
  aligner_rows cs vs = vote_outcome_rows ctx cs ++ verdict_rows ctx cs vs

  unfoldable pub build_rows :
      List Candidate
      → List Verdict
      → List HuntedDiscrepancy
      → (t_events m_events : List Event) → (valid_item_ids : Option (List ℕ)) → List NewRow
  build_rows cs vs hs ts ms valid =
      let rows = aligner_rows cs vs in
      keep has_anchor (rows ++ hunted_rows ts ms ctx valid (taken_by rows) hs)
