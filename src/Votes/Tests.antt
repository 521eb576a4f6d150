-- ===== src/Votes/Tests.antt =====
-- The vote matcher on one meeting.
use docket_pub.Prelude.{
  ℕ, ◌+◌, ◌≡◌, refl, inl, Bool, true, false, ◌&&◌, ◌||◌, Option, none, some, List, [], ◌∷◌, map,
  Text, codes, leb, if◌then◌else◌, ◌==◌, arith,
}
use docket_pub.Regex.{fold, is_space}
use docket_pub.Discrepancies.Citations.{strip, bisect_right}
use docket_pub.Alignment.Sequence.{bisect_left}
use docket_pub.Guard.Find.{find_text, starts_with}
use docket_pub.Votes.Types.{
  Vote, Item, Link, minutes_text, video_ocr, consent_implicit, consent_block_default, is_minutes,
  has_active_link,
}
use docket_pub.Votes.Links.Shield.{manual}
use docket_pub.Votes.Words.{Unicode, is_consent_block, vote_text, occurs, shared_words}
use docket_pub.Votes.Cues.{item_index_for_vote, step_back, compute_confidence}
use docket_pub.Votes.Cues.Latest.{Ascending, documented_index, item_index-documented}
use docket_pub.Votes.Tiers.{race, race_all, Lead}
use docket_pub.Votes.Match.{unlinked_votes}
use docket_pub.Votes.Match.Substantive.{Facts}
use docket_pub.Votes.Match.Consent.{consent_items_of, match_consent_block}
use docket_pub.Votes.Match.Written.{has_pair}
use docket_pub.Votes.Match.Covered.{consent_covers}
use docket_pub.Votes.Reparse.{has_provisional_links}
use docket_pub.Votes.Reparse.Enumerated.{
  parse_enumerated_consent_list, entries_from, entry_at, after_literal, number_at, desc_at,
}
use docket_pub.Votes.Meeting.{
  Meeting, fetched, Tables, match_votes_for_meeting, match_all_unmatched,
}
use docket_pub.Votes.Meeting.Adopted.{adopted_settles}
use docket_pub.Votes.Meeting.Locked.{locked_rows_stay}

-- The ASCII part of Unicode.
abbrev is_digit : ℕ → Bool
is_digit c = leb b'0' c && leb c b'9'

abbrev ascii : Unicode
ascii = record {
  lower = map (λ c. if leb b'A' c && leb c b'Z' then c + 32 else c);
  word = λ c. is_digit c || (leb b'a' c && leb c b'z') || (leb b'A' c && leb c b'Z') || c == b'_';
  digit = is_digit;
}

abbrev no_facts : Facts
no_facts = record {
  proper_nouns = λ _. [];
  dollar_amounts = λ _. [];
  same_amounts = λ _ _. false;
  confidence = λ _ _. 50;
}

abbrev block : Vote
block = record {
  id = 1;
  meeting_id = 5;
  source = minutes_text;
  video_timestamp = none;
  needs_review = false;
  resolution_number = none;
  raw_text = some (codes "All items on the consent agenda were adopted");
  match_context = none;
}

abbrev shown : Vote
shown = record {
  id = 2;
  meeting_id = 5;
  source = video_ocr;
  video_timestamp = some 700;
  needs_review = false;
  resolution_number = none;
  raw_text = none;
  match_context = none;
}

abbrev votes : List Vote
votes = block ∷ shown ∷ []

abbrev item : ℕ → Text → ℕ → Item
item n title seconds = record {
  id = n;
  meeting_id = 5;
  item_number = some (codes "7");
  title = some title;
  description = none;
  is_consent = true;
  video_timestamp_seconds = some seconds;
}

abbrev paving : Item
paving = item 11 (codes "Street paving contract") 600

abbrev items : List Item
items = paving ∷ item 12 (codes "Lease of the old depot, 31-24") 690 ∷ []

abbrev locked : Link
locked = record {
  vote_id = 1;
  agenda_item_id = 12;
  association_type = consent_implicit;
  match_method = some consent_block_default;
  match_confidence = 80;
  excerpt_context = none;
  provisional = true;
  is_manual = true;
  is_active = false;
}

abbrev tables : Tables
tables = record {
  links = locked ∷ [];
  statuses = record { meeting_id = 5; votes_matched = false } ∷ [];
}

abbrev minutes : Text
minutes = codes "RESOLUTION NO. 31-24 A lease of the depot"

abbrev meeting : Meeting
meeting = record { id = 5; is_adopted = true; minutes = fetched minutes }

-- Ten seconds behind the second cue, so the first.
shown_index : item_index_for_vote 1 (600 ∷ 690 ∷ []) 700 ≡ some 0
unfolding item_index_for_vote step_back bisect_left bisect_right
shown_index = refl

shown_confidence : compute_confidence 1 600 700 false ≡ 100
unfolding compute_confidence
shown_confidence = refl

one_entry :
    parse_enumerated_consent_list ascii minutes
    ≡ record { num = codes "31-24"; desc = codes "A lease of the depot" } ∷ []
unfolding parse_enumerated_consent_list entries_from entry_at after_literal number_at desc_at
    is_space fold strip
one_entry = refl

abbrev letters : Text → List Text
letters = map (λ c. c ∷ [])

abbrev titled : ℕ → Text → Item
titled n title = record (item n title 600) { item_number = none }

abbrev start : Lead
start = record { item_id = none; nouns = 0; has_dollar = false }

abbrev raced : List Item → Option Lead
raced is = race_all letters (λ _. []) (λ _ _. false) (letters (codes "ab")) [] is start

-- Two items that share one proper noun with a vote tie, and end the race before an item that shares
-- two; that item wins when it comes first.
tie_ends : raced (titled 1 (codes "a") ∷ titled 2 (codes "a") ∷ titled 3 (codes "ab") ∷ []) ≡ none
unfolding race_all race shared_words
tie_ends = refl

tie_behind :
    raced (titled 3 (codes "ab") ∷ titled 1 (codes "a") ∷ titled 2 (codes "a") ∷ [])
    ≡ some (record { item_id = some 3; nouns = 2; has_dollar = false })
unfolding race_all race shared_words
tie_behind = refl

unlinked_block : unlinked_votes 5 is_minutes (locked ∷ []) votes ≡ block ∷ []
unfolding unlinked_votes has_active_link
unlinked_block = refl

is_block : is_consent_block ascii block ≡ true
unfolding is_consent_block vote_text occurs find_text starts_with
is_block = refl

consent_paving : consent_items_of 5 items ≡ items
unfolding consent_items_of
consent_paving = refl

ascending : Ascending (600 ∷ 690 ∷ [])
ascending = ((omega arith, tt), (tt, tt))

item_index-documented_example :
    item_index_for_vote 1 (600 ∷ 690 ∷ []) 700 ≡ documented_index 1 (600 ∷ 690 ∷ []) 700
item_index-documented_example = item_index-documented 1 (600 ∷ 690 ∷ []) 700 ascending

consent_covers_example :
    has_pair 1 11 (match_consent_block ascii 5 items votes (locked ∷ [])).links ≡ true
consent_covers_example =
    consent_covers ascii 5 items votes (locked ∷ []) block paving (rw unlinked_block (inl refl))
      is_block (rw consent_paving (inl refl))

locked_rows_stay_example :
    manual (match_all_unmatched 1 ascii no_facts items votes (meeting ∷ []) tables).tables.links
    ≡ manual (locked ∷ [])
locked_rows_stay_example = locked_rows_stay 1 ascii no_facts items votes (meeting ∷ []) tables

adopted_settles_example :
    has_provisional_links 5 votes
      (match_votes_for_meeting 1 ascii no_facts items votes (meeting ∷ []) 5 tables).tables.links
    ≡ false
adopted_settles_example =
    adopted_settles 1 ascii no_facts items votes (meeting ∷ []) 5 tables meeting minutes refl refl
      refl (refl, tt)
