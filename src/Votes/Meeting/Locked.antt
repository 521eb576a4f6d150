-- ===== src/Votes/Meeting/Locked.antt =====
-- analysis/vote_matcher.py: the rows that a person has locked, behind a run on every meeting.
use docket_pub.Prelude.{
  ℕ, ◌≡◌, refl, ◌∙◌, ◌&&◌, Option, none, some, List, [], ◌∷◌, Bool-cases, inl, inr,
}
use docket_pub.Votes.Types.{Vote, Item, Link}
use docket_pub.Votes.Links.Shield.{manual}
use docket_pub.Votes.Words.{Unicode}
use docket_pub.Votes.Match.Written.{write_votes-manual, unless_none-manual}
use docket_pub.Votes.Match.Timed.{cued_items, match_votes_by_timestamp}
use docket_pub.Votes.Match.Substantive.{Facts, items_of, match_substantive}
use docket_pub.Votes.Match.Consent.{consent_items_of, match_consent_block}
use docket_pub.Votes.Reparse.{has_provisional_links}
use docket_pub.Votes.Reparse.Settled.{strict_reparse-manual}
use docket_pub.Votes.Meeting.{
  Fetch, nothing, raised, fetched, Meeting, Tables, Totals, three_passes, strict_reparse_meeting,
  reparse_if_adopted, match_votes_for_meeting, match_meetings, match_all_unmatched,
}

module _ (second : ℕ) (u : Unicode) (f : Facts) (items : List Item) (votes : List Vote) where
  three_passes-manual :
      (meeting : ℕ) (links : List Link)
      → manual (three_passes second u f items votes meeting links).links ≡ manual links
  unfolding three_passes match_votes_by_timestamp match_substantive match_consent_block
  three_passes-manual meeting links =
      let timed = match_votes_by_timestamp second meeting items votes links in
      let substantive = match_substantive u f meeting items votes timed.links in
      unless_none-manual (consent_items_of meeting items) substantive.links _
        (write_votes-manual _ _ _)
      ∙ (unless_none-manual (items_of meeting items) timed.links _ (write_votes-manual _ _ _)
          ∙ unless_none-manual (cued_items meeting items) links _ (write_votes-manual _ _ _))

  strict_reparse_meeting-manual :
      (meeting : ℕ) (fetch : Fetch) (links : List Link)
      → manual (strict_reparse_meeting second u f items votes meeting fetch links).links
        ≡ manual links
  unfolding strict_reparse_meeting
  strict_reparse_meeting-manual meeting nothing links = refl
  strict_reparse_meeting-manual meeting raised links = refl
  strict_reparse_meeting-manual meeting (fetched text) links =
      strict_reparse-manual meeting votes _ _ links

  reparse_if_adopted-manual :
      (meeting : ℕ) (row : Option Meeting) (links : List Link)
      → manual (reparse_if_adopted second u f items votes meeting row links).links ≡ manual links
  unfolding reparse_if_adopted
  reparse_if_adopted-manual meeting none links = refl
  reparse_if_adopted-manual meeting (some m) links =
      elim (Bool-cases (m.is_adopted && has_provisional_links meeting votes links)) [
        | inl e ↦ rw e (strict_reparse_meeting-manual meeting m.minutes links)
        | inr e ↦ rw e refl
      ]

  match_meetings-manual :
      (meetings : List Meeting) (ids : List ℕ) (t : Totals)
      → manual (match_meetings second u f items votes meetings ids t).tables.links
        ≡ manual t.tables.links
  unfolding match_meetings match_votes_for_meeting
  match_meetings-manual meetings [] t = refl
  match_meetings-manual meetings (m ∷ ms) t =
      match_meetings-manual meetings ms _
      ∙ (reparse_if_adopted-manual m _ _ ∙ three_passes-manual m t.tables.links)

  -- A run on all meetings with unmatched votes leaves the locked rows as they are, all of them and
  -- in their order, whatever the texts and the minutes say.
  pub locked_rows_stay :
      (meetings : List Meeting) (tables : Tables)
      → manual (match_all_unmatched second u f items votes meetings tables).tables.links
        ≡ manual tables.links
  unfolding match_all_unmatched
  locked_rows_stay meetings tables = match_meetings-manual meetings _ _
