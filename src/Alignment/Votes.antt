-- ===== src/Alignment/Votes.antt =====
-- ai/transcripts/aligner.py: _pick_vote_row and vote_outcome_candidates.
use docket_pub.Prelude.{
  ℕ, Bool, true, false, ◌&&◌, ◌||◌, not, Option, none, some, List, [], ◌∷◌, ◌++◌, Text, length, leb,
  ltb, ◌==◌, keep, contains, sorted_set, get_elem?, if◌then◌else◌,
}
use docket_pub.Discrepancies.Types.{Category}
use docket_pub.Alignment.Types.{Event, vote, same_type, VoteRow, Candidate, vote_row_differs}
use docket_pub.Alignment.Consent.{sort}
use docket_pub.Alignment.Grouping.{same_numbers}
use docket_pub.Alignment.Results.{results_differ, counts_differ}
use docket_pub.Alignment.Notes.{vote_row_note}

-- sorted by id, stable
unfoldable pub insert_vote : VoteRow → List VoteRow → List VoteRow
insert_vote v [] = v ∷ []
insert_vote v (w ∷ ws) =
    let rest = insert_vote v ws in if leb v.id w.id then v ∷ w ∷ ws else w ∷ rest

unfoldable pub sort_votes : List VoteRow → List VoteRow
sort_votes [] = []
sort_votes (v ∷ vs) = insert_vote v (sort_votes vs)

-- `set(a) == set(b)`
abbrev pub same_set : List ℕ → List ℕ → Bool
same_set a b = same_numbers (sorted_set a) (sorted_set b)

abbrev pub shared : VoteRow → List ℕ → ℕ
shared v refs = length (keep (λ n. contains n refs) (sorted_set v.item_ids))

-- max(overlap.values(), default=0)
abbrev best_shared : List VoteRow → List ℕ → ℕ
best_shared [] refs = 0
best_shared (v ∷ vs) refs =
    let rest = best_shared vs refs in if ltb rest (shared v refs) then shared v refs else rest

-- The rows that tie for the event; none with no overlap.
unfoldable pub tied_votes : List ℕ → List VoteRow → List VoteRow
tied_votes refs votes = elim (keep (λ v. same_set v.item_ids refs) votes) [
  | v ∷ vs ↦ v ∷ vs
  | [] ↦
      let best = best_shared votes refs in
      if best == 0 then [] else keep (λ v. shared v refs == best) votes
]

unfoldable pub pick_vote_row : List ℕ → List VoteRow → ℕ → Option VoteRow
pick_vote_row refs votes k = get_elem? (sort_votes (tied_votes refs votes)) k

-- seen.get(refs, 0), the sets of the votes before.
abbrev times_seen : List (List ℕ) → List ℕ → ℕ
times_seen seen refs = length (keep (λ s. same_set s refs) seen)

abbrev is_refless : List ℕ → Bool
is_refless [] = true
is_refless (_ ∷ _) = false

module _ (fold : ℕ → Text) (word : ℕ → Bool) (votes : List VoteRow) (skip_event_ids : List ℕ) where
  unfoldable pub vote_row_mismatch : Event → VoteRow → Bool
  vote_row_mismatch e v =
      results_differ fold word e.detail.result v.result
      || counts_differ e.detail.yeas v.yeas
      || counts_differ e.detail.nays v.nays
      || counts_differ e.detail.abstentions v.abstentions

  abbrev judged : Event → Option VoteRow → List Candidate
  judged e none = []
  judged e (some v) =
      if vote_row_mismatch e v
      then record {
        candidate_id = 0;
        kind = vote_row_differs;
        category = Category.vote_outcome;
        transcript_event = some e;
        minutes_event = none;
        note = vote_row_note e.detail v;
        item_refs = e.item_refs;
        vote_row = some v;
      }
        ∷ []
      else []

  -- The loop, with the item sets of the votes that it has passed.
  unfoldable pub vote_loop : List (List ℕ) → List Event → List Candidate
  vote_loop seen [] = []
  vote_loop seen (e ∷ es) = elim (same_type e.event_type vote && not (is_refless e.item_refs)) [
    | false ↦ vote_loop seen es
    | true ↦
        (if contains e.id skip_event_ids
          then []
          else judged e (pick_vote_row e.item_refs votes (times_seen seen e.item_refs)))
        ++ vote_loop (e.item_refs ∷ seen) es
  ]

  unfoldable pub vote_outcome_candidates : List Event → List Candidate
  vote_outcome_candidates t_events = vote_loop [] (sort t_events)
