-- ===== src/Badges/Policy.antt =====
-- ai/badges_policy.py. The search of a raw pattern is the argument `search`, with none for re.error.
pub mod Backed
use docket_pub.Prelude.{
  ℕ, Bool, true, false, Option, none, some, List, [], ◌∷◌, String, str_eq, Text, has_text, any,
  keep, if◌then◌else◌,
}
use docket_pub.Regex.{Regex, boundary, seq, plain, found}
use docket_pub.Scoring.Facts.{Facts, Item, Rewrite, ActionType, same_action, haystack}
use docket_pub.Votes.Words.{Unicode, occurs}
use docket_pub.Badges.Types.{
  Trigger, no_match, matched_keywords, matched_action_type, matched_topic, Metadata, BadgeSource,
  deterministic, llm, both, Status, applied, flagged,
}

-- An entry of hints['keywords']: a text, or a pattern with the label it is shown by.
pub data Keyword : Type 0 where
  phrase : Text → Keyword
  raw : (pattern label : Text) → Keyword

-- matcher_hints; a missing key is an empty list.
pub record Hints : Type 0 where
  pub excluded_action_types : List ActionType
  pub excluded_phrases : List Text
  pub keywords : List Keyword
  pub action_types : List ActionType
  pub topics : List Text

pub record EnabledBadge : Type 0 where
  pub slug : String
  pub matcher_hints : Hints

-- A tuple of the list that compute_policy_badges returns.
pub record Decided : Type 0 where
  pub slug : String
  pub confidence : ℕ
  pub source : BadgeSource
  pub metadata : Metadata
  pub status : Status

unfoldable pub has_slug : String → List String → Bool
has_slug slug = any (λ s. str_eq s slug)

abbrev pub has_action : ActionType → List ActionType → Bool
has_action a = any (λ b. same_action a b)

unfoldable pub is_match : Trigger → Bool
is_match no_match = false
is_match _ = true

-- decide_status_and_confidence(llm, det)
unfoldable pub decide_status_and_confidence : (llm det : Bool) → Option (Status × ℕ)
decide_status_and_confidence true true = some (applied, 100)
decide_status_and_confidence false true = some (applied, 80)
decide_status_and_confidence true false = some (flagged, 40)
decide_status_and_confidence false false = none

-- resolve_source, which raises when neither fired.
unfoldable pub resolve_source : (llm det : Bool) → Option BadgeSource
resolve_source true true = some both
resolve_source true false = some llm
resolve_source false true = some deterministic
resolve_source false false = none

unfoldable pub metadata_of : (llm det : Bool) → Trigger → Metadata
metadata_of true true t = record { both = true; llm_only = false; trigger = t }
metadata_of true false t = record { both = false; llm_only = true; trigger = no_match }
metadata_of false det t = record { both = false; llm_only = false; trigger = t }

-- The tuple of a badge, from which sources fired.
unfoldable pub decided : (slug : String) → (llm det : Bool) → Trigger → Option Decided
decided slug llm_hit det trigger = elim (decide_status_and_confidence llm_hit det) [
  | none ↦ none
  | some (status, confidence) ↦ elim (resolve_source llm_hit det) [
    | none ↦ none
    | some source ↦ some (record {
      slug = slug;
      confidence = confidence;
      source = source;
      metadata = metadata_of llm_hit det trigger;
      status = status;
    })
  ]
]

module _ (u : Unicode) (search : (pattern text : Text) → Option Bool) (topic : Option Text) where
  -- The item's topic is beside its title and description.
  abbrev word_pattern : Text → Regex
  word_pattern k = seq boundary (seq (plain (u.lower k)) boundary)

  unfoldable pub keyword_hit : Text → Keyword → Option Text
  keyword_hit text (phrase k) = if found u.word (word_pattern k) text then some k else none
  keyword_hit text (raw pattern label) = elim (search pattern text) [
    | some hit ↦ if hit then some label else none
    | none ↦ none
  ]

  unfoldable pub keyword_hits : Text → List Keyword → List Text
  keyword_hits text [] = []
  keyword_hits text (k ∷ ks) =
      let rest = keyword_hits text ks in
      elim (keyword_hit text k) [ some hit ↦ hit ∷ rest | none ↦ rest ]

  unfoldable pub topic_match : List Text → Trigger
  topic_match topics = elim topic [
    | none ↦ no_match
    | some [] ↦ no_match
    | some (c ∷ cs) ↦ if has_text (c ∷ cs) topics then matched_topic (c ∷ cs) else no_match
  ]

  -- A match is any trigger but no_match.
  unfoldable pub deterministic_policy_match : Item → Facts → Hints → Trigger
  deterministic_policy_match item facts hints =
      let text = u.lower (haystack item) in
      if has_action facts.action_type hints.excluded_action_types
      then no_match
      else if any (λ p. occurs (u.lower p) text) hints.excluded_phrases
      then no_match
      else elim (keyword_hits text hints.keywords) [
        | k ∷ ks ↦ matched_keywords (k ∷ ks)
        | [] ↦
            if has_action facts.action_type hints.action_types
            then matched_action_type facts.action_type
            else topic_match hints.topics
      ]

  -- The body of the loop.
  unfoldable pub decide_badge :
      Item → Facts → (suggested : List String) → EnabledBadge → Option Decided
  decide_badge item facts suggested badge =
      let trigger = deterministic_policy_match item facts badge.matcher_hints in
      decided badge.slug (has_slug badge.slug suggested) (is_match trigger) trigger

  unfoldable pub decide_badges :
      Item → Facts → (suggested : List String) → List EnabledBadge → List Decided
  decide_badges item facts suggested [] = []
  decide_badges item facts suggested (b ∷ bs) =
      let rest = decide_badges item facts suggested bs in
      elim (decide_badge item facts suggested b) [ some d ↦ d ∷ rest | none ↦ rest ]

  -- From the badges that are enabled in the city; a suggestion that is not enabled is dropped.
  unfoldable pub compute_policy_badges : Item → Facts → Rewrite → List EnabledBadge → List Decided
  compute_policy_badges item facts rewrite enabled =
      let suggested =
        keep (λ s. any (λ b. str_eq b.slug s) enabled) rewrite.suggested_badge_slugs in
      decide_badges item facts suggested enabled
