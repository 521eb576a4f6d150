-- ===== src/Alignment/Tests.antt =====
-- The consent block and the pairing of aligner.py on short timelines.
use docket_pub.Prelude.{
  Bool, true, false, ◌⊎◌, ℕ, ◌≡◌, refl, none, some, Option, List, [], ◌∷◌, contains, Text, codes,
  map, In,
}
use docket_pub.Alignment.Types.{
  Candidate, EventType, Event, Scope, Detail, consent_amendment, motion, vote, same_type,
}
use docket_pub.Alignment.Consent.{
  sort, insert, effective_consent_block, amended, amend, amend_all, consent_action,
}
use docket_pub.Alignment.Consent.LastAction.{last_verdict, or_published, consent-last_verdict}
use docket_pub.Alignment.Pairing.{pair_group, pair_types, pair_type}
use docket_pub.Alignment.Pairing.Covers.{PairedFirst, PairedSecond}
use docket_pub.Alignment.Align.{align, is_minuted}
use docket_pub.Alignment.Align.Accounted.{
  aligned_pairs, OmissionListed, AdditionListed, ItemListed, every_event_accounted,
}
use docket_pub.Alignment.Sequence.{
  sequence_candidates, kept_indices, deal_all, deal, walk, bisect_left, not_at,
}

abbrev no_detail : Detail
no_detail = record {
  items = [];
  action = none;
  to_date = none;
  as_stated = none;
  what_changed = none;
  result = none;
  yeas = none;
  nays = none;
  abstentions = none;
  stated_reason = none;
  statute_cite = none;
  kind = none;
  ruling = none;
  unlisted_item = none;
  quote = none;
}

abbrev event : ℕ → EventType → Option Text → List ℕ → Event
event n type action refs = record {
  id = n;
  seq = n;
  event_type = type;
  scope = Scope.item;
  item_refs = refs;
  actor_member_id = none;
  actor_text = none;
  detail = record no_detail { action = action };
  start_s = none;
  page = none;
  char_offset = none;
}

-- Item 4 is pulled and added again, item 5 is pulled.
abbrev timeline : List Event
timeline =
    event 3 consent_amendment (some (codes "added")) (4 ∷ [])
    ∷ event 1 consent_amendment (some (codes "pulled")) (4 ∷ 5 ∷ [])
    ∷ event 2 motion none (6 ∷ [])
    ∷ []

block_after : effective_consent_block (4 ∷ 5 ∷ 6 ∷ []) timeline ≡ 6 ∷ 4 ∷ []
unfolding effective_consent_block sort insert amend_all amend amended same_type consent_action
block_after = refl

consent-last_verdict_example :
    contains 4 (effective_consent_block (4 ∷ 5 ∷ 6 ∷ []) timeline)
    ≡ or_published (contains 4 (4 ∷ 5 ∷ 6 ∷ [])) (last_verdict 4 (sort timeline))
consent-last_verdict_example = consent-last_verdict (4 ∷ 5 ∷ 6 ∷ []) timeline 4

-- The first motions pair; the second motion of the video is left over.
motions_pair :
    (pair_group
      (event 1 motion none [] ∷ event 2 vote none [] ∷ event 3 motion none [] ∷ [])
      (event 9 motion none [] ∷ [])).t_only
    ≡ event 3 motion none [] ∷ event 2 vote none [] ∷ []
unfolding pair_group pair_types pair_type same_type
motions_pair = refl

-- The third of four pairs comes too early in the minutes.
third_early :
    map
      (λ p. p.0.id)
      (sequence_candidates (
        (event 1 motion none [], event 11 motion none [])
        ∷ (event 4 motion none [], event 14 motion none [])
        ∷ (event 2 motion none [], event 13 motion none [])
        ∷ (event 3 motion none [], event 12 motion none [])
        ∷ []))
    ≡ 2 ∷ []
unfolding sequence_candidates docket_pub.Alignment.Sequence.sort
    docket_pub.Alignment.Sequence.insert kept_indices deal_all deal walk bisect_left not_at
third_early = refl

abbrev plain_fold : ℕ → Text
plain_fold c = c ∷ []

abbrev no_word : ℕ → Bool
no_word c = false

abbrev minutes_events : List Event
minutes_events = event 9 motion none (6 ∷ []) ∷ event 10 vote none (7 ∷ []) ∷ []

abbrev listed : List Candidate
listed = align plain_fold no_word (λ s. s) timeline minutes_events (4 ∷ 5 ∷ 6 ∷ []) []

abbrev paired : List (Event × Event)
paired = aligned_pairs plain_fold no_word (λ s. s) timeline minutes_events (4 ∷ 5 ∷ 6 ∷ []) []

every_event_accounted_example :
    ((e : Event)
      → In e timeline
      → is_minuted e ≡ true
      → PairedFirst e paired ⊎ (OmissionListed e listed ⊎ ItemListed e listed))
    × ((e : Event)
        → In e minutes_events
        → is_minuted e ≡ true
        → PairedSecond e paired ⊎ (AdditionListed e listed ⊎ ItemListed e listed))
every_event_accounted_example =
    every_event_accounted plain_fold no_word (λ s. s) timeline minutes_events (4 ∷ 5 ∷ 6 ∷ []) []
