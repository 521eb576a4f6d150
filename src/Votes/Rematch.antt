-- ===== src/Votes/Rematch.antt =====
-- services/vote_rematch.py: list_timestamp_links as far as the re-match reads it, and
-- rematch_near_cue_links. `in_city` holds of the meetings of the municipality; a row of
-- vote_agenda_items is known by its vote and item, which are its unique key. The moves stand in the
-- order of the rows, without the order of the listing; two moves of one vote to one item, on which the
-- INSERT raises, are written one after the other.
mod Locked
use docket_pub.Prelude.{
  ℕ, Bool, true, false, ◌&&◌, not, Option, none, some, List, [], ◌∷◌, ◌++◌, map, leb, ◌==◌, any,
  keep, find?, if◌then◌else◌,
}
use docket_pub.Votes.Types.{Vote, Item, Link, explicit, MatchMethod, timestamp, is_video}
use docket_pub.Votes.Links.{NewLink, inserted, same_pair}
use docket_pub.Votes.Cues.{item_index_for_vote, compute_confidence}
use docket_pub.Votes.Match.Timed.{Cued, cued_items, row_at}

-- A row of the listing.
pub record TimestampLink : Type 0 where
  pub vote_id : ℕ
  pub meeting_id : ℕ
  pub vote_timestamp : ℕ
  pub needs_review : Bool
  pub item_id : ℕ
  pub item_cue : ℕ
  pub is_latest_cue : Bool

-- A Move with reason near_cue, or one with reason cue_changed.
pub data Move : Type 0 where
  near_cue : (link : TimestampLink) → (new_item_id new_confidence : ℕ) → Move
  cue_changed : (link : TimestampLink) → Move

unfoldable pub is_timestamp : Option MatchMethod → Bool
is_timestamp (some timestamp) = true
is_timestamp _ = false

-- max(video_timestamp_seconds) at or before a second, of cues in order.
unfoldable pub latest_cue : List Cued → (vote_timestamp : ℕ) → Option ℕ
latest_cue [] v = none
latest_cue (c ∷ cs) v =
    let rest = latest_cue cs v in
    elim rest [ some s ↦ some s | none ↦ if leb c.seconds v then some c.seconds else none ]

abbrev is_cue : ℕ → Option ℕ → Bool
is_cue s none = false
is_cue s (some c) = c == s

module _ (second : ℕ) (in_city : ℕ → Bool) (items : List Item) (votes : List Vote) where
  abbrev listed_with : Vote → (vote_timestamp : ℕ) → Item → (item_cue : ℕ) → TimestampLink
  listed_with v t i cue = record {
    vote_id = v.id;
    meeting_id = v.meeting_id;
    vote_timestamp = t;
    needs_review = v.needs_review;
    item_id = i.id;
    item_cue = cue;
    is_latest_cue = is_cue cue (latest_cue (cued_items v.meeting_id items) t);
  }

  -- The joins and the WHERE of the listing.
  unfoldable pub listed : Link → Option TimestampLink
  listed l = elim (l.is_active && not l.is_manual && is_timestamp l.match_method) [
    | false ↦ none
    | true ↦
        elim (find? (λ v. v.id == l.vote_id && in_city v.meeting_id && is_video v.source) votes) [
          | none ↦ none
          | some v ↦ elim v.video_timestamp [
            | none ↦ none
            | some t ↦ elim (find? (λ i. i.id == l.agenda_item_id) items) [
              | none ↦ none
              | some i ↦ elim i.video_timestamp_seconds [
                | none ↦ none
                | some cue ↦ some (listed_with v t i cue)
              ]
            ]
          ]
        ]
  ]

  -- The body of the loop over the links of a meeting.
  unfoldable pub move_of : TimestampLink → Option Move
  move_of l =
      let rows = cued_items l.meeting_id items in
      elim (item_index_for_vote second (map (λ c. c.seconds) rows) l.vote_timestamp) [
        | none ↦ some (cue_changed l)
        | some idx ↦ elim (row_at rows idx) [
          | none ↦ none
          | some c ↦
              if c.seconds == l.item_cue
              then none
              else if not l.is_latest_cue
              then some (cue_changed l)
              else some (
                  near_cue l c.id
                    (compute_confidence second c.seconds l.vote_timestamp l.needs_review))
        ]
      ]

  unfoldable pub moves_of : List Link → List Move
  moves_of [] = []
  moves_of (l ∷ ls) =
      let rest = moves_of ls in
      elim (listed l) [
        | none ↦ rest
        | some t ↦ elim (move_of t) [ none ↦ rest | some m ↦ m ∷ rest ]
      ]

abbrev is_old : Link → Move → Bool
is_old l (near_cue t _ _) = l.vote_id == t.vote_id && l.agenda_item_id == t.item_id
is_old l (cue_changed t) = false

-- The WHERE of _DEACTIVATE_SQL.
unfoldable pub is_moved : List Move → Link → Bool
is_moved moves l =
    any (is_old l) moves && l.is_active && not l.is_manual && is_timestamp l.match_method

abbrev pub deactivated : Link → Link
deactivated l = record l { is_active = false }

abbrev new_link : TimestampLink → (new_item_id new_confidence : ℕ) → NewLink
new_link t item confidence = record {
  vote_id = t.vote_id;
  agenda_item_id = item;
  association_type = explicit;
  match_method = timestamp;
  match_confidence = confidence;
  excerpt_context = none;
  provisional = false;
}

-- DO UPDATE SET of _UPSERT_SQL.
unfoldable pub revived : NewLink → Link → Link
revived n l = record l {
  is_active = true;
  association_type = n.association_type;
  match_method = some n.match_method;
  match_confidence = n.match_confidence;
  provisional = n.provisional;
}

unfoldable pub upsert_move : NewLink → List Link → List Link
upsert_move n links = elim (any (same_pair n) links) [
  | true ↦ map (λ l. if same_pair n l && not l.is_manual then revived n l else l) links
  | false ↦ links ++ inserted n ∷ []
]

unfoldable pub upsert_moves : List Move → List Link → List Link
upsert_moves [] links = links
upsert_moves (cue_changed _ ∷ ms) links = upsert_moves ms links
upsert_moves (near_cue t item confidence ∷ ms) links =
    upsert_moves ms (upsert_move (new_link t item confidence) links)

abbrev is_near_cue : Move → Bool
is_near_cue (near_cue _ _ _) = true
is_near_cue (cue_changed _) = false

-- The rows behind the re-match and the moves it returns.
pub record Rematched : Type 0 where
  pub links : List Link
  pub moves : List Move

unfoldable pub rematch_near_cue_links :
    (second : ℕ)
    → (in_city : ℕ → Bool) → List Item
    → List Vote
    → (dry_run : Bool) → List Link
    → Rematched
rematch_near_cue_links second in_city items votes dry_run links =
    let moves = moves_of second in_city items votes links in
    let written =
      upsert_moves moves (map (λ l. if is_moved moves l then deactivated l else l) links) in
    record {
      links = if dry_run then links else written;
      moves = keep is_near_cue moves ++ keep (λ m. not (is_near_cue m)) moves;
    }
