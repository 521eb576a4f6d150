-- ===== src/Assembly/Hunted.antt =====
-- ai/transcripts/compare.py: the rows that build_rows makes of the hunter's findings.
use docket_pub.Prelude.{
  ℕ, Bool, true, false, ◌&&◌, ◌||◌, not, Option, none, some, List, [], ◌∷◌, ◌++◌, Text, any, keep,
  ◌==◌, contains, if◌then◌else◌,
}
use docket_pub.Discrepancies.Types.{Category, MatchKind, is_missing, model_initiated, is_proposed}
use docket_pub.Discrepancies.Citations.{MinutesText, Citation, citation_match_for}
use docket_pub.Discrepancies.Recompare.{NewRow, same_category}
use docket_pub.Alignment.Types.{Event, stated, nonzero}
use docket_pub.Assembly.Types.{Context, HuntedDiscrepancy, first_some}
use docket_pub.Assembly.Nearest.{nearest_event, shared_event, first_event}
use docket_pub.Assembly.Rows.{
  id_of, model_category, base, cite_t, cite_m, with_transcript, with_minutes, scaling_for,
}

-- A member of `taken`: a category with the event that anchors it on a side.
pub record Anchor : Type 0 where
  pub category : Category
  pub is_transcript : Bool
  pub event_id : ℕ

abbrev same_side : Bool → Bool → Bool
same_side true b = b
same_side false b = not b

unfoldable pub same_anchor : Anchor → Anchor → Bool
same_anchor a b =
    same_category a.category b.category
    && same_side a.is_transcript b.is_transcript
    && a.event_id == b.event_id

abbrev anchor_of : Category → Bool → Option ℕ → List Anchor
anchor_of cat side none = []
anchor_of cat side (some n) = record { category = cat; is_transcript = side; event_id = n } ∷ []

-- The anchors of the proposed rows.
unfoldable pub taken_by : List NewRow → List Anchor
taken_by [] = []
taken_by (r ∷ rs) =
    (if is_proposed r.review_state
      then anchor_of r.category true (nonzero r.transcript_event_id)
        ++ anchor_of r.category false (nonzero r.minutes_event_id)
      else [])
    ++ taken_by rs

-- The two events that anchor a finding.
abbrev pub Anchors : Type 0
Anchors = Option Event × Option Event

abbrev pub is_unanchored : Anchors → Bool
is_unanchored (none, none) = true
is_unanchored _ = false

abbrev is_stated : Option Text → Bool
is_stated q = elim (stated q) [ none ↦ false | some _ ↦ true ]

module _ (t_events m_events : List Event) where
  -- With no position, the first event on the items, else the first event, of the quoted side.
  unfoldable pub anchor_transcript : HuntedDiscrepancy → (refs : List ℕ) → Anchors
  anchor_transcript h refs = (
    if is_stated h.transcript_quote
        then first_some (shared_event refs t_events) (first_event t_events)
        else none,
    none,
  )

  unfoldable pub anchor_minutes : HuntedDiscrepancy → (refs : List ℕ) → Anchors → Anchors
  anchor_minutes h refs (some t, m) = (some t, m)
  anchor_minutes h refs (none, m) = (
    none,
    if is_stated h.minutes_quote
        then first_some (shared_event refs m_events) (first_event m_events)
        else m,
  )

  abbrev last_minutes : (refs : List ℕ) → Option Event → Anchors
  last_minutes refs (some t) = (some t, none)
  last_minutes refs none = (none, first_some (shared_event refs m_events) (first_event m_events))

  -- With neither quoted: any event on the items, which becomes the transcript's anchor.
  unfoldable pub anchor_anywhere : (refs : List ℕ) → Anchors → Anchors
  anchor_anywhere refs a =
      if is_unanchored a
      then last_minutes refs (
          first_some (shared_event refs t_events)
            (first_some (shared_event refs m_events) (first_event t_events)))
      else a

  -- The fallback for a finding with no positional match.
  unfoldable pub anchor_by_items : HuntedDiscrepancy → (refs : List ℕ) → Anchors → Anchors
  anchor_by_items h refs a =
      if is_unanchored a
      then anchor_anywhere refs (anchor_minutes h refs (anchor_transcript h refs))
      else a

  module _ (ctx : Context) where
    abbrev cited_t : Option Text → Citation
    cited_t q = cite_t ctx q

    abbrev cited_m : Option Text → Citation
    cited_m q = cite_m ctx q

    abbrev near_transcript : Option Text → (start_s : Option ℕ) → (refs : List ℕ) → Option Event
    near_transcript q none refs = none
    near_transcript q (some s) refs =
        if is_stated q then nearest_event t_events (some s) none refs else none

    abbrev near_minutes : Option MinutesText → Option Text → (refs : List ℕ) → Option Event
    near_minutes (some m) (some q) refs =
        let cm = ctx.find_citation q m.text in
        if is_missing cm.kind then none else nearest_event m_events none (some cm.start) refs
    near_minutes _ _ refs = none

    -- t_ev and m_ev.
    unfoldable pub anchors_for : HuntedDiscrepancy → (refs : List ℕ) → Anchors
    anchors_for h refs = anchor_by_items h refs (
      near_transcript h.transcript_quote (cited_t h.transcript_quote).start_s refs,
      near_minutes ctx.minutes (stated h.minutes_quote) refs,
    )

    abbrev kind_if : Option Text → MatchKind → List MatchKind
    kind_if q k = if is_stated q then k ∷ [] else []

    unfoldable pub hunted_row : HuntedDiscrepancy → (refs : List ℕ) → Anchors → NewRow
    hunted_row h refs (t_ev, m_ev) =
        let ct = cited_t h.transcript_quote in
        let cm = cited_m h.minutes_quote in
        let m =
          citation_match_for
            (kind_if h.transcript_quote ct.kind ++ kind_if h.minutes_quote cm.kind) in
        let row =
          base ctx (model_category h.category) h.severity h.title h.description t_ev m_ev refs
            model_initiated in
        let row' = with_minutes ctx cm (with_transcript ctx ct row) in
        record row' {
          citation_match = m;
          confidence = some (ctx.confidence_of (scaling_for m) h.confidence);
        }

    -- Whether an aligner row is the same finding.
    unfoldable pub is_folded : List Anchor → HuntedDiscrepancy → Anchors → Bool
    is_folded taken h (t_ev, m_ev) =
        let cat = model_category h.category in
        any (λ a. any (same_anchor a) taken)
          (anchor_of h.category true (id_of t_ev)
            ++ (anchor_of cat true (id_of t_ev)
                ++ (anchor_of h.category false (id_of m_ev) ++ anchor_of cat false (id_of m_ev))))

    abbrev pub hunted_as : List Anchor → HuntedDiscrepancy → (refs : List ℕ) → Anchors → List NewRow
    hunted_as taken h refs a =
        if is_unanchored a || is_folded taken h a then [] else hunted_row h refs a ∷ []

    abbrev valid_refs : Option (List ℕ) → List ℕ → List ℕ
    valid_refs none refs = refs
    valid_refs (some ids) refs = keep (λ n. contains n ids) refs

    -- The third loop.
    unfoldable pub hunted_rows :
        (valid_item_ids : Option (List ℕ)) → List Anchor → List HuntedDiscrepancy → List NewRow
    hunted_rows valid taken [] = []
    hunted_rows valid taken (h ∷ hs) =
        let refs = valid_refs valid h.agenda_item_refs in
        hunted_as taken h refs (anchors_for h refs) ++ hunted_rows valid taken hs
