-- ===== src/Votes/Match/Timed.antt =====
-- analysis/vote_matcher.py: match_votes_by_timestamp.
use docket_pub.Prelude.{
  ℕ, suc, zero, Bool, true, false, ◌&&◌, ◌||◌, Option, none, some, List, [], ◌∷◌, map, ltb, ◌==◌,
  if◌then◌else◌,
}
use docket_pub.Votes.Types.{Vote, Item, Link, explicit, timestamp, is_video}
use docket_pub.Votes.Links.{NewLink}
use docket_pub.Votes.Cues.{item_index_for_vote, compute_confidence}
use docket_pub.Votes.Match.{Matched, write_votes, unlinked_votes, unless_none}

-- A row of the first query.
pub record Cued : Type 0 where
  pub id : ℕ
  pub seconds : ℕ

unfoldable pub is_before : Cued → Cued → Bool
is_before a b = ltb a.seconds b.seconds || (a.seconds == b.seconds && ltb a.id b.id)

unfoldable pub insert_cue : Cued → List Cued → List Cued
insert_cue a [] = a ∷ []
insert_cue a (b ∷ bs) = elim (is_before b a) [ true ↦ b ∷ insert_cue a bs | false ↦ a ∷ b ∷ bs ]

-- The items of the meeting with a cue, ORDER BY video_timestamp_seconds, id.
unfoldable pub cued_items : (meeting_id : ℕ) → List Item → List Cued
cued_items meeting [] = []
cued_items meeting (i ∷ is) =
    let rest = cued_items meeting is in
    elim i.video_timestamp_seconds [
      | none ↦ rest
      | some s ↦
          if i.meeting_id == meeting
          then insert_cue (record { id = i.id; seconds = s }) rest
          else rest
    ]

-- items[i], if there is one.
abbrev pub row_at : List Cued → ℕ → Option Cued
row_at [] i = none
row_at (c ∷ cs) zero = some c
row_at (c ∷ cs) (suc i) = row_at cs i

module _ (second : ℕ) where
  abbrev timed_link : Vote → (vote_timestamp : ℕ) → Cued → List NewLink
  timed_link v t c =
      let conf = compute_confidence second c.seconds t v.needs_review in
      if conf == 0
      then []
      else (record {
        vote_id = v.id;
        agenda_item_id = c.id;
        association_type = explicit;
        match_method = timestamp;
        match_confidence = conf;
        excerpt_context = none;
        provisional = false;
      })
        ∷ []

  -- The body of the loop.
  unfoldable pub timed_links : List Cued → Vote → List NewLink
  timed_links cues v = elim v.video_timestamp [
    | none ↦ []
    | some t ↦ elim (item_index_for_vote second (map (λ c. c.seconds) cues) t) [
      | none ↦ []
      | some idx ↦ elim (row_at cues idx) [ none ↦ [] | some c ↦ timed_link v t c ]
    ]
  ]

  unfoldable pub match_votes_by_timestamp :
      (meeting_id : ℕ) → List Item → List Vote → List Link → Matched
  match_votes_by_timestamp meeting items votes links =
      let rows = cued_items meeting items in
      unless_none rows links (
        write_votes (timed_links rows) (unlinked_votes meeting is_video links votes)
          (record { links = links; matched = 0 }))
