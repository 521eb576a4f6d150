-- ===== src/Votes/Types.antt =====
-- The tables that analysis/vote_matcher.py reads and writes: votes, agenda_items and
-- vote_agenda_items, as far as it uses them. A time in the video is a number of units, and a
-- confidence a number of hundredths.
use docket_pub.Prelude.{ℕ, Bool, true, false, ◌&&◌, Option, List, Text, ◌==◌, any}

pub data Source : Type 0 where
  minutes_text video_ocr other_source : Source

pub data AssociationType : Type 0 where
  explicit consent_named consent_implicit positional : AssociationType

pub data MatchMethod : Type 0 where
  timestamp resolution_number item_number structured_fact text_similarity : MatchMethod
  consent_block_named consent_block_default consent_enumerated : MatchMethod

pub record Vote : Type 0 where
  pub id : ℕ
  pub meeting_id : ℕ
  pub source : Source
  pub video_timestamp : Option ℕ
  pub needs_review : Bool
  pub resolution_number : Option Text
  pub raw_text : Option Text
  pub match_context : Option Text

pub record Item : Type 0 where
  pub id : ℕ
  pub meeting_id : ℕ
  pub item_number : Option Text
  pub title : Option Text
  pub description : Option Text
  pub is_consent : Bool
  pub video_timestamp_seconds : Option ℕ

pub record Link : Type 0 where
  pub vote_id : ℕ
  pub agenda_item_id : ℕ
  pub association_type : AssociationType
  pub match_method : Option MatchMethod
  pub match_confidence : ℕ
  pub excerpt_context : Option Text
  pub provisional : Bool
  pub is_manual : Bool
  pub is_active : Bool

abbrev pub is_minutes : Source → Bool
is_minutes minutes_text = true
is_minutes _ = false

abbrev pub is_video : Source → Bool
is_video video_ocr = true
is_video _ = false

abbrev pub is_explicit : AssociationType → Bool
is_explicit explicit = true
is_explicit _ = false

-- association_type IN ('consent_named', 'consent_implicit')
abbrev pub is_consent_link : AssociationType → Bool
is_consent_link consent_named = true
is_consent_link consent_implicit = true
is_consent_link _ = false

-- Whether the vote of a link is one of the meeting's.
unfoldable pub is_of_meeting : (meeting_id : ℕ) → List Vote → Link → Bool
is_of_meeting meeting votes l = any (λ v. v.id == l.vote_id && v.meeting_id == meeting) votes

-- LEFT JOIN vote_agenda_items ... AND is_active, WHERE vai.id IS NULL
unfoldable pub has_active_link : List Link → Vote → Bool
has_active_link links v = any (λ l. l.vote_id == v.id && l.is_active) links
