-- ===== src/Alignment/Details.antt =====
-- ai/transcripts/aligner.py: details_differ. `canonical` is guard.canonical_statute.
use docket_pub.Prelude.{
  ℕ, ◌*◌, Bool, true, false, ◌&&◌, ◌||◌, not, Option, none, some, List, [], ◌∷◌, ◌++◌, Text, leb,
  ltb, ◌==◌, length, keep, has_text, same_text, if◌then◌else◌,
}
use docket_pub.Discrepancies.Types.{Category, vote_outcome, wording, speaker}
use docket_pub.Alignment.Types.{
  Event, EventType, amendment, consent_amendment, executive_session_motion, item_deferred, motion,
  procedural_ruling, recusal, statement, vote, same_type, is_among, Detail, stated, nonzero,
}
use docket_pub.Alignment.Results.{results_differ, counts_differ}
use docket_pub.Guard.Normalize.{normalize}

-- [a-z0-9]
abbrev is_token_char : ℕ → Bool
is_token_char c = (leb b'a' c && leb c b'z') || (leb b'0' c && leb c b'9')

abbrev begins_token : Text → Bool
begins_token [] = false
begins_token (c ∷ _) = is_token_char c

abbrev put : ℕ → Bool → List Text → List Text
put c true (t ∷ ts) = (c ∷ t) ∷ ts
put c true [] = (c ∷ []) ∷ []
put c false ts = (c ∷ []) ∷ ts

-- re.findall(r"[a-z0-9]+", s)
unfoldable pub tokens_of : Text → List Text
tokens_of [] = []
tokens_of (c ∷ cs) =
    let rest = tokens_of cs in
    elim (is_token_char c) [ false ↦ rest | true ↦ put c (begins_token cs) rest ]

-- The elements of a list, each once.
unfoldable pub distinct : List Text → List Text
distinct [] = []
distinct (t ∷ ts) = let rest = distinct ts in if has_text t ts then rest else t ∷ rest

-- Whether the Jaccard ratio is below num / den; that of two texts with no tokens is 1.
unfoldable pub jaccard_below : (num den : ℕ) → List Text → List Text → Bool
jaccard_below num den as' bs =
    let union = length (distinct (as' ++ bs)) in
    let both = length (keep (λ t. has_text t bs) (distinct as')) in
    not (union == 0) && ltb (both * den) (num * union)

abbrev actor_types : List EventType
actor_types = motion ∷ amendment ∷ executive_session_motion ∷ recusal ∷ item_deferred ∷ []

module _ (fold : ℕ → Text) (word : ℕ → Bool) (canonical : Text → Text) where
  abbrev tokens : Option Text → List Text
  tokens s = elim s [ none ↦ tokens_of (normalize fold []) | some t ↦ tokens_of (normalize fold t) ]

  -- `_jaccard(a, b) < num / den`
  unfoldable pub are_unlike : (num den : ℕ) → Option Text → Option Text → Bool
  are_unlike num den a b = jaccard_below num den (tokens a) (tokens b)

  -- `a and b and f(a) != f(b)`
  abbrev both_differ : (Text → Text) → Option Text → Option Text → Bool
  both_differ f (some a) (some b) = not (same_text (f a) (f b))
  both_differ f _ _ = false

  abbrev keys_differ : Option Text → Option Text → Bool
  keys_differ a b = both_differ (normalize fold) (stated a) (stated b)

  abbrev both_unlike : Option Text → Option Text → Bool
  both_unlike (some a) (some b) = are_unlike 2 5 (some a) (some b)
  both_unlike _ _ = false

  abbrev ids_differ : Option ℕ → Option ℕ → Bool
  ids_differ (some a) (some b) = not (a == b)
  ids_differ _ _ = false

  unfoldable pub votes_differ : Detail → Detail → Bool
  votes_differ t m =
      results_differ fold word t.result m.result
      || counts_differ t.yeas m.yeas
      || counts_differ t.nays m.nays
      || counts_differ t.abstentions m.abstentions

  unfoldable pub actors_differ : Event → Event → Bool
  actors_differ t m =
      is_among t.event_type actor_types
      && ids_differ (nonzero t.actor_member_id) (nonzero m.actor_member_id)

  unfoldable pub sessions_differ : Detail → Detail → Bool
  sessions_differ t m =
      both_differ canonical (stated t.statute_cite) (stated m.statute_cite)
      || are_unlike 1 2 t.stated_reason m.stated_reason

  unfoldable pub actions_differ : Event → Event → Bool
  actions_differ t m =
      is_among t.event_type (item_deferred ∷ motion ∷ consent_amendment ∷ procedural_ruling ∷ [])
      && (keys_differ t.detail.action m.detail.action
          || keys_differ t.detail.to_date m.detail.to_date
          || keys_differ t.detail.kind m.detail.kind)

  -- The key that is compared by its words.
  abbrev wording_key : EventType → Detail → Option Text
  wording_key et d =
      if same_type et amendment
      then d.what_changed
      else if same_type et procedural_ruling
      then d.ruling
      else d.as_stated

  unfoldable pub wordings_differ : Event → Event → Bool
  wordings_differ t m =
      is_among t.event_type (amendment ∷ statement ∷ procedural_ruling ∷ motion ∷ [])
      && both_unlike (stated (wording_key t.event_type t.detail))
          (stated (wording_key t.event_type m.detail))

  unfoldable pub details_differ : Event → Event → Option Category
  details_differ t m =
      if same_type t.event_type vote
      then (if votes_differ t.detail m.detail then some vote_outcome else none)
      else if actors_differ t m
      then some speaker
      else if same_type t.event_type executive_session_motion
      then (if sessions_differ t.detail m.detail then some wording else none)
      else if actions_differ t m || wordings_differ t m
      then some wording
      else none
