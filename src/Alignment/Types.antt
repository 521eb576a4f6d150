-- ===== src/Alignment/Types.antt =====
-- ai/transcripts/aligner.py: the events, the votes rows and the candidates, less what the aligner
-- only carries along unread. Sets of items are lists, read by membership. Times in the video are
-- whole numbers of some unit.
use mathlib.Core.Bool.{decide}
use docket_pub.Prelude.{
  ℕ, zero, suc, Bool, true, Option, none, some, List, [], ◌∷◌, Text, any, ◌≡◌, refl,
}
use docket_pub.Discrepancies.Types.{Category}

-- meeting_events.event_type, in alphabetical order.
pub data EventType : Type 0 where
  adjourn amendment consent_amendment executive_session_motion item_deferred item_opened motion :
      EventType
  procedural_ruling public_comment recess reconvene recusal roll_call second statement vote :
      EventType

unfoldable pub EventType-discrete : Discrete EventType
EventType-discrete = hlevel

unfoldable pub same_type : EventType → EventType → Bool
unfolding EventType-discrete decide
same_type a b = decide (EventType-discrete a b)

-- `et in types`
abbrev pub is_among : EventType → List EventType → Bool
is_among et = any (λ t. same_type et t)

pub data Scope : Type 0 where
  item consent_block meeting : Scope

-- The keys of Event.detail; an empty list of items is no items.
pub record Detail : Type 0 where
  pub items : List ℕ
  pub action : Option Text
  pub to_date : Option Text
  pub as_stated : Option Text
  pub what_changed : Option Text
  pub result : Option Text
  pub yeas : Option ℕ
  pub nays : Option ℕ
  pub abstentions : Option ℕ
  pub stated_reason : Option Text
  pub statute_cite : Option Text
  pub kind : Option Text
  pub ruling : Option Text
  pub unlisted_item : Option Text
  pub quote : Option Text

pub record Event : Type 0 where
  pub id : ℕ
  pub seq : ℕ
  pub event_type : EventType
  pub scope : Scope
  pub item_refs : List ℕ
  pub actor_member_id : Option ℕ
  pub actor_text : Option Text
  pub detail : Detail
  pub start_s : Option ℕ
  pub page : Option ℕ
  pub char_offset : Option ℕ

-- A row of load_votes.
pub record VoteRow : Type 0 where
  pub id : ℕ
  pub result : Option Text
  pub yeas : Option ℕ
  pub nays : Option ℕ
  pub abstentions : Option ℕ
  pub raw_text : Option Text
  pub item_ids : List ℕ

pub data CandidateKind : Type 0 where
  consent_candidate mismatch omitted added out_of_sequence vote_row_differs : CandidateKind

pub record Candidate : Type 0 where
  pub candidate_id : ℕ
  pub kind : CandidateKind
  pub category : Category
  pub transcript_event : Option Event
  pub minutes_event : Option Event
  pub note : Text
  pub item_refs : List ℕ
  pub vote_row : Option VoteRow

-- `if x`, on an optional text and on an optional id.
abbrev pub stated : Option Text → Option Text
stated none = none
stated (some []) = none
stated (some (c ∷ cs)) = some (c ∷ cs)

abbrev pub nonzero : Option ℕ → Option ℕ
nonzero none = none
nonzero (some zero) = none
nonzero (some (suc n)) = some (suc n)

pub same_type_refl : (a : EventType) → same_type a a ≡ true
unfolding same_type decide
same_type_refl a = elim (EventType-discrete a a) as (λ d. decide d ≡ true) [
  | yes p ↦ refl
  | no n ↦ absurd (n refl)
]

pub same_type→eq : (a b : EventType) → same_type a b ≡ true → a ≡ b
unfolding same_type decide
same_type→eq a b = elim (EventType-discrete a b) as (λ d. decide d ≡ true → a ≡ b) [
  | yes p ↦ λ h. p
  | no n ↦ λ h. cc h
]
