-- ===== src/Alignment/Align.antt =====
-- ai/transcripts/aligner.py: align.
pub mod Found
pub mod Accounted
use docket_pub.Prelude.{
  ℕ, ◌+◌, Bool, ◌&&◌, not, Option, none, some, List, [], ◌∷◌, ◌++◌, Text, codes, map, keep, find?,
  contains, sorted_set, if◌then◌else◌,
}
use docket_pub.Discrepancies.Types.{Category}
use docket_pub.Alignment.Types.{
  Event, EventType, adjourn, amendment, consent_amendment, executive_session_motion, item_deferred,
  motion, procedural_ruling, recess, reconvene, recusal, statement, vote, same_type, is_among,
  VoteRow, Candidate, CandidateKind, consent_candidate, mismatch, omitted, added, out_of_sequence,
}
use docket_pub.Alignment.Consent.{effective_consent_block}
use docket_pub.Alignment.Grouping.{touches, Group, group_transcript, group_minutes}
use docket_pub.Alignment.Details.{details_differ}
use docket_pub.Alignment.Notes.{type_name, mismatch_note}
use docket_pub.Alignment.Pairing.{pair_group}
use docket_pub.Alignment.Sequence.{sequence_candidates}
use docket_pub.Alignment.Votes.{vote_outcome_candidates}

abbrev minuted_types : List EventType
minuted_types =
    motion ∷ amendment ∷ vote ∷ executive_session_motion ∷ recusal ∷ procedural_ruling
    ∷ item_deferred ∷ consent_amendment ∷ statement ∷ recess ∷ reconvene ∷ adjourn ∷ []

-- A candidate with no vote row and, so far, no number.
abbrev pub candidate :
    CandidateKind → Category → Option Event → Option Event → Text → List ℕ → Candidate
candidate k cat t m note refs = record {
  candidate_id = 0;
  kind = k;
  category = cat;
  transcript_event = t;
  minutes_event = m;
  note = note;
  item_refs = refs;
  vote_row = none;
}

abbrev on_item : ℕ → List Event → Option Event
on_item n = find? (λ e. contains n e.item_refs)

-- The vote on the item, or else any event on it.
abbrev vote_or_event : ℕ → List Event → Option Event
vote_or_event n es = elim (find? (λ e. contains n e.item_refs && same_type e.event_type vote) es) [
  | some e ↦ some e
  | none ↦ on_item n es
]

-- `a - b`, in order.
unfoldable pub difference : List ℕ → List ℕ → List ℕ
difference a b = sorted_set (keep (λ n. not (contains n b)) a)

-- An item in the minutes' consent block that was handled separately on video, and the converse.
unfoldable pub pulled_on_video : (t_events m_events : List Event) → ℕ → Candidate
pulled_on_video ts ms n =
    candidate consent_candidate Category.addition (on_item n ts) (vote_or_event n ms)
      (codes "pulled from consent on video; still inside the consent block in the minutes") (n ∷ [])

unfoldable pub pulled_in_minutes : (t_events m_events : List Event) → ℕ → Candidate
pulled_in_minutes ts ms n =
    candidate consent_candidate Category.omission (on_item n ts) (on_item n ms)
      (codes "inside the consent block on video; handled separately in the minutes") (n ∷ [])

unfoldable pub omission_of : Event → Candidate
omission_of e =
    candidate omitted Category.omission (some e) none
      (type_name e.event_type ++ codes " on video, not in minutes") e.item_refs

unfoldable pub addition_of : Event → Candidate
addition_of e =
    candidate added Category.addition none (some e)
      (type_name e.event_type ++ codes " in minutes, not on video") e.item_refs

unfoldable pub sequence_of : Event × Event → Candidate
sequence_of (a, b) =
    candidate out_of_sequence Category.sequence (some a) (some b)
      (codes "paired events occur in a different order") (a.item_refs ++ b.item_refs)

abbrev pub is_minuted : Event → Bool
is_minuted e = is_among e.event_type minuted_types

-- all_pairs, mism, omis and adds
pub record Compared : Type 0 where
  pub pairs : List (Event × Event)
  pub mism : List Candidate
  pub omis : List Candidate
  pub adds : List Candidate

-- `for i, c in enumerate(ordered, start=1)`
unfoldable pub number_from : ℕ → List Candidate → List Candidate
number_from i [] = []
number_from i (c ∷ cs) = record c { candidate_id = i } ∷ number_from (i + 1) cs

abbrev vote_event_ids : List Candidate → List ℕ
vote_event_ids [] = []
vote_event_ids (c ∷ cs) = elim c.category [
  | Category.vote_outcome ↦ elim c.transcript_event [
    | some e ↦ e.id ∷ vote_event_ids cs
    | none ↦ vote_event_ids cs
  ]
  | _ ↦ vote_event_ids cs
]

module _ (fold : ℕ → Text) (word : ℕ → Bool) (canonical : Text → Text) where
  abbrev mismatch_as : Event → Event → Option Category → List Candidate
  mismatch_as t m none = []
  mismatch_as t m (some cat) =
      candidate mismatch cat (some t) (some m) (mismatch_note fold t m cat)
        (t.item_refs ++ m.item_refs)
      ∷ []

  unfoldable pub mismatches : List (Event × Event) → List Candidate
  mismatches [] = []
  mismatches ((t, m) ∷ ps) =
      mismatch_as t m (details_differ fold word canonical t m) ++ mismatches ps

  -- The body of the loop over the groups.
  unfoldable pub compare_group : (settled : List ℕ) → Group → Compared → Compared
  compare_group settled g c =
      if touches g.key settled
      then c
      else let p = pair_group g.ts g.ms in
        record {
          pairs = c.pairs ++ p.pairs;
          mism = c.mism ++ mismatches p.pairs;
          omis = c.omis ++ map omission_of (keep is_minuted p.t_only);
          adds = c.adds ++ map addition_of (keep is_minuted p.m_only);
        }

  unfoldable pub compare_groups : (settled : List ℕ) → List Group → Compared → Compared
  compare_groups settled [] c = c
  compare_groups settled (g ∷ gs) c = compare_groups settled gs (compare_group settled g c)

  -- What the loop over the groups finds, from the two effective consent blocks.
  unfoldable pub compare_timelines :
      (t_block m_block : List ℕ) → (t_events m_events : List Event) → Compared
  compare_timelines tb mb ts ms =
      let settled = difference mb tb ++ difference tb mb in
      compare_groups settled
        (group_minutes fold settled mb ms (group_transcript fold settled tb ts []))
        (record { pairs = []; mism = []; omis = []; adds = [] })

  -- The candidates in their order, before they are numbered.
  unfoldable pub ordered_candidates :
      (t_events m_events : List Event) (consent_items : List ℕ) → List VoteRow → List Candidate
  ordered_candidates ts ms consent votes =
      let tb = effective_consent_block consent ts in
      let mb = effective_consent_block consent ms in
      let c = compare_timelines tb mb ts ms in
      map (pulled_on_video ts ms) (difference mb tb)
      ++ (map (pulled_in_minutes ts ms) (difference tb mb)
          ++ (c.mism
              ++ (c.omis
                  ++ (c.adds
                      ++ (map sequence_of (sequence_candidates c.pairs)
                          ++ vote_outcome_candidates fold word votes (vote_event_ids c.mism) ts)))))

  unfoldable pub align :
      (t_events m_events : List Event) (consent_items : List ℕ) → List VoteRow → List Candidate
  align ts ms consent votes = number_from 1 (ordered_candidates ts ms consent votes)
