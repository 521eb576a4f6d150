-- ===== src/Votes/Meeting/Adopted.antt =====
-- analysis/vote_matcher.py: match_votes_for_meeting on a meeting whose minutes are adopted.
use docket_pub.Prelude.{
  ℕ, ◌≡◌, refl, true, false, ◌&&◌, some, List, [], ◌∷◌, Text, Bool-cases, Option-cases, inl, inr,
  All, All-append, map, any, not, contains, ◌==◌,
}
use docket_pub.Votes.Types.{Vote, Item, Link}
use docket_pub.Votes.Links.{NewLink, inserted, updated}
use docket_pub.Regex.{is_space}
use docket_pub.Votes.Cues.{item_index_for_vote, compute_confidence}
use docket_pub.Votes.Words.{Unicode, is_consent_block, vote_text}
use docket_pub.Votes.Match.{Matched}
use docket_pub.Votes.Match.Written.{write_votes-All, unless_none-All}
use docket_pub.Votes.Match.Timed.{Cued, cued_items, match_votes_by_timestamp, timed_links, row_at}
use docket_pub.Votes.Match.Substantive.{
  Facts, items_of, match_substantive, substantive_links, best_tier,
}
use docket_pub.Votes.Match.Consent.{
  consent_items_of, match_consent_block, consent_links, named_links, named_link, names_number,
  naming_words, default_links,
}
use docket_pub.Votes.Reparse.{has_provisional_links}
use docket_pub.Votes.Reparse.Settled.{is_positional, reparse_settles}
use docket_pub.Votes.Meeting.{
  fetched, Meeting, row_of, Tables, three_passes, strict_reparse_meeting, reparse_if_adopted,
  match_votes_for_meeting,
}

abbrev NotPositional : Link → Type 0
NotPositional l = is_positional l.association_type ≡ false

abbrev Asked : NewLink → Type 0
Asked n = is_positional n.association_type ≡ false

inserted-NotPositional : (n : NewLink) → Asked n → NotPositional (inserted n)
unfolding inserted
inserted-NotPositional n h = h

updated-NotPositional :
    (n : NewLink) (l : Link) → Asked n → NotPositional l → NotPositional (updated n l)
unfolding updated
updated-NotPositional n l h k = h

module _ (second : ℕ) (u : Unicode) (f : Facts) (items : List Item) (votes : List Vote) where
  timed_links-Asked : (cues : List Cued) (v : Vote) → All Asked (timed_links second cues v)
  unfolding timed_links
  timed_links-Asked cues v = elim (Option-cases v.video_timestamp) [
    | inl q ↦ rw (timed_links, q) tt
    | inr (t, q) ↦ elim (Option-cases (item_index_for_vote second (map (λ c. c.seconds) cues) t)) [
      | inl r ↦ rw (timed_links, q, r) tt
      | inr (idx, r) ↦ elim (Option-cases (row_at cues idx)) [
        | inl k ↦ rw (timed_links, q, r, k) tt
        | inr (c, k) ↦
            elim (Bool-cases (compute_confidence second c.seconds t v.needs_review == 0)) [
              | inl z ↦ rw (timed_links, q, r, k, z) tt
              | inr z ↦ rw (timed_links, q, r, k, z) (refl, tt)
            ]
      ]
    ]
  ]

  substantive_links-Asked : (is : List Item) (v : Vote) → All Asked (substantive_links u f is v)
  unfolding substantive_links
  substantive_links-Asked is v = elim (Bool-cases (is_consent_block u v)) [
    | inl q ↦ rw (substantive_links, q) tt
    | inr q ↦ elim (Option-cases (best_tier u f v is)) [
      | inl r ↦ rw (substantive_links, q, r) tt
      | inr (t, r) ↦ rw (substantive_links, q, r) (refl, tt)
    ]
  ]

  named_links-Asked :
      (ws : List Text) (v : Vote) (is : List Item) → All Asked (named_links u ws v is)
  unfolding named_links named_link
  named_links-Asked ws v [] = tt
  named_links-Asked ws v (i ∷ is) = elim (Bool-cases (names_number u v i)) [
    | inl q ↦ rw (named_links, named_link, q) (refl, named_links-Asked ws v is)
    | inr q ↦ elim (Option-cases (naming_words u ws i)) [
      | inl r ↦ rw (named_links, named_link, q, r) (named_links-Asked ws v is)
      | inr (t, r) ↦ rw (named_links, named_link, q, r) (refl, named_links-Asked ws v is)
    ]
  ]

  default_links-Asked :
      (ids : List ℕ) (v : Vote) (is : List Item) → All Asked (default_links u ids v is)
  unfolding default_links
  default_links-Asked ids v [] = tt
  default_links-Asked ids v (i ∷ is) = elim (Bool-cases (contains i.id ids)) [
    | inl q ↦ rw q (default_links-Asked ids v is)
    | inr q ↦ rw q (refl, default_links-Asked ids v is)
  ]

  consent_links-Asked : (is : List Item) (v : Vote) → All Asked (consent_links u is v)
  unfolding consent_links
  consent_links-Asked is v =
      elim (Bool-cases (is_consent_block u v && any (λ c. not (is_space c)) (vote_text u v))) [
        | inl q ↦ rw q (
            All-append Asked (named_links u _ v is) _ (named_links-Asked _ v is)
              (default_links-Asked _ v is))
        | inr q ↦ rw q tt
      ]

  three_passes-NotPositional :
      (meeting : ℕ) (links : List Link)
      → All NotPositional links
      → All NotPositional (three_passes second u f items votes meeting links).links
  unfolding three_passes match_votes_by_timestamp match_substantive match_consent_block
  three_passes-NotPositional meeting links h =
      let keeps =
        λ (g : Vote → List NewLink) (q : (v : Vote) → All Asked (g v)) (vs : List Vote)
            (m : Matched) (k : All NotPositional m.links).
          write_votes-All NotPositional Asked inserted-NotPositional updated-NotPositional g q vs m
            k in
      let timed = match_votes_by_timestamp second meeting items votes links in
      let substantive = match_substantive u f meeting items votes timed.links in
      let h1 =
        unless_none-All NotPositional (cued_items meeting items) links _ h
          (keeps _ (timed_links-Asked (cued_items meeting items)) _ _ h) in
      let h2 =
        unless_none-All NotPositional (items_of meeting items) timed.links _ h1
          (keeps _ (substantive_links-Asked (items_of meeting items)) _ _ h1) in
      unless_none-All NotPositional (consent_items_of meeting items) substantive.links _ h2
        (keeps _ (consent_links-Asked (consent_items_of meeting items)) _ _ h2)

  -- A run on a meeting whose minutes are adopted and can be fetched ends with no provisional link of
  -- the meeting that is active and not locked, whatever the three passes wrote. The rows come in with
  -- no positional link, which nothing writes.
  pub adopted_settles :
      (meetings : List Meeting) (meeting_id : ℕ) (tables : Tables) (m : Meeting) (text : Text)
      → row_of meeting_id meetings ≡ some m
      → m.is_adopted ≡ true
      → m.minutes ≡ fetched text
      → All NotPositional tables.links
      → has_provisional_links meeting_id votes
          (match_votes_for_meeting second u f items votes meetings meeting_id tables).tables.links
        ≡ false
  unfolding match_votes_for_meeting reparse_if_adopted strict_reparse_meeting
  adopted_settles meetings meeting tables m text e a t h =
      let passes = three_passes second u f items votes meeting tables.links in
      elim (Bool-cases (has_provisional_links meeting votes passes.links)) [
        | inl q ↦
            rw (e, reparse_if_adopted, a, q, t, strict_reparse_meeting)
              (reparse_settles meeting votes _ _ passes.links
                (three_passes-NotPositional meeting tables.links h))
        | inr q ↦ rw (e, reparse_if_adopted, a, q) q
      ]
