-- ===== src/Votes/Meeting.antt =====
-- analysis/vote_matcher.py: strict_reparse_meeting with its minutes, match_votes_for_meeting and
-- match_all_unmatched.
pub mod Adopted
pub mod Locked
use docket_pub.Prelude.{
  ℕ, ◌+◌, Bool, true, ◌&&◌, not, Option, none, some, List, [], ◌∷◌, map, Text, ◌==◌, sorted_set,
  keep, if◌then◌else◌,
}
use docket_pub.Votes.Types.{Vote, Item, Link, has_active_link}
use docket_pub.Votes.Words.{Unicode, is_consent_block}
use docket_pub.Votes.Match.Timed.{match_votes_by_timestamp}
use docket_pub.Votes.Match.Substantive.{Facts, match_substantive}
use docket_pub.Votes.Match.Consent.{match_consent_block}
use docket_pub.Votes.Reparse.{Reparsed, strict_reparse, has_provisional_links}
use docket_pub.Votes.Reparse.Enumerated.{parse_enumerated_consent_list, resolve_enumerated}

-- What the fetch of the minutes comes to: no address or no file, an exception, or their text.
pub data Fetch : Type 0 where
  nothing : Fetch
  raised : Fetch
  fetched : Text → Fetch

-- A row of processing_status.
pub record Status : Type 0 where
  pub meeting_id : ℕ
  pub votes_matched : Bool

-- A row of meetings, with whether minutes_adopted_at is set.
pub record Meeting : Type 0 where
  pub id : ℕ
  pub is_adopted : Bool
  pub minutes : Fetch

-- The tables that the matcher writes.
pub record Tables : Type 0 where
  pub links : List Link
  pub statuses : List Status

pub record Outcome : Type 0 where
  pub tables : Tables
  pub timestamp_matched : ℕ
  pub substantive_matched : ℕ
  pub consent_matched : ℕ
  pub promoted : ℕ
  pub deactivated : ℕ

pub record Totals : Type 0 where
  pub tables : Tables
  pub timestamp_matched : ℕ
  pub substantive_matched : ℕ
  pub consent_matched : ℕ

-- UPDATE processing_status SET votes_matched = TRUE
unfoldable pub mark_matched : (meeting_id : ℕ) → List Status → List Status
mark_matched meeting =
    map (λ s. if s.meeting_id == meeting then record s { votes_matched = true } else s)

abbrev pub row_of : (meeting_id : ℕ) → List Meeting → Option Meeting
row_of meeting [] = none
row_of meeting (m ∷ ms) = if m.id == meeting then some m else row_of meeting ms

-- The links behind the three passes, with their counts.
pub record Passes : Type 0 where
  pub links : List Link
  pub timestamp_matched : ℕ
  pub substantive_matched : ℕ
  pub consent_matched : ℕ

module _ (second : ℕ) (u : Unicode) (f : Facts) (items : List Item) (votes : List Vote) where
  abbrev unchanged : List Link → Reparsed
  unchanged links = record { links = links; promotions = 0; deactivations = 0 }

  -- The items that the enumerated list of the minutes resolves to.
  abbrev pub targets_of : (meeting_id : ℕ) → (minutes_text : Text) → List ℕ
  targets_of meeting text =
      resolve_enumerated u meeting items (parse_enumerated_consent_list u text)

  -- An exception comes before the first statement on the links, and its caller logs it.
  unfoldable pub strict_reparse_meeting : (meeting_id : ℕ) → Fetch → List Link → Reparsed
  strict_reparse_meeting meeting nothing links = unchanged links
  strict_reparse_meeting meeting raised links = unchanged links
  strict_reparse_meeting meeting (fetched text) links =
      strict_reparse meeting votes (targets_of meeting text) (is_consent_block u) links

  -- Whether the meeting is adopted, and what strict_reparse_meeting then does.
  unfoldable pub reparse_if_adopted : (meeting_id : ℕ) → Option Meeting → List Link → Reparsed
  reparse_if_adopted meeting none links = unchanged links
  reparse_if_adopted meeting (some m) links =
      if m.is_adopted && has_provisional_links meeting votes links
      then strict_reparse_meeting meeting m.minutes links
      else unchanged links

  unfoldable pub three_passes : (meeting_id : ℕ) → List Link → Passes
  three_passes meeting links =
      let timed = match_votes_by_timestamp second meeting items votes links in
      let substantive = match_substantive u f meeting items votes timed.links in
      let consent = match_consent_block u meeting items votes substantive.links in
      record {
        links = consent.links;
        timestamp_matched = timed.matched;
        substantive_matched = substantive.matched;
        consent_matched = consent.matched;
      }

  unfoldable pub match_votes_for_meeting : List Meeting → (meeting_id : ℕ) → Tables → Outcome
  match_votes_for_meeting meetings meeting tables =
      let passes = three_passes meeting tables.links in
      let reparsed = reparse_if_adopted meeting (row_of meeting meetings) passes.links in
      record {
        tables = (record {
          links = reparsed.links;
          statuses = mark_matched meeting tables.statuses;
        });
        timestamp_matched = passes.timestamp_matched;
        substantive_matched = passes.substantive_matched;
        consent_matched = passes.consent_matched;
        promoted = reparsed.promotions;
        deactivated = reparsed.deactivations;
      }

  -- The loop over the meetings.
  unfoldable pub match_meetings : List Meeting → List ℕ → Totals → Totals
  match_meetings meetings [] t = t
  match_meetings meetings (m ∷ ms) t =
      let o = match_votes_for_meeting meetings m t.tables in
      match_meetings meetings ms (record {
        tables = o.tables;
        timestamp_matched = t.timestamp_matched + o.timestamp_matched;
        substantive_matched = t.substantive_matched + o.substantive_matched;
        consent_matched = t.consent_matched + o.consent_matched;
      })

  -- SELECT DISTINCT v.meeting_id ... ORDER BY v.meeting_id
  unfoldable pub unmatched_meetings : List Link → List ℕ
  unmatched_meetings links =
      sorted_set (map (λ v. v.meeting_id) (keep (λ v. not (has_active_link links v)) votes))

  unfoldable pub match_all_unmatched : List Meeting → Tables → Totals
  match_all_unmatched meetings tables =
      match_meetings meetings (unmatched_meetings tables.links) (record {
        tables = tables;
        timestamp_matched = 0;
        substantive_matched = 0;
        consent_matched = 0;
      })
