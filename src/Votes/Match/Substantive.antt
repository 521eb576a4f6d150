-- ===== src/Votes/Match/Substantive.antt =====
-- analysis/vote_matcher.py: _match_substantive, with the four tiers in their order.
use docket_pub.Prelude.{
  ℕ, Bool, true, false, Option, none, some, List, [], ◌∷◌, Text, ◌==◌, keep, take,
}
use docket_pub.Alignment.Types.{stated}
use docket_pub.Votes.Types.{Vote, Item, Link, explicit, is_minutes}
use docket_pub.Votes.Links.{NewLink}
use docket_pub.Votes.Words.{Unicode, or_empty, is_consent_block}
use docket_pub.Votes.Tiers.{
  Tier, first_of, try_resolution_match, try_item_number_match, try_structured_fact_match,
}
use docket_pub.Votes.Tiers.Keyword.{Score, try_keyword_match}
use docket_pub.Votes.Match.{Matched, write_votes, unlinked_votes, unless_none}

-- The items of the meeting, as the query reads them.
abbrev pub items_of : (meeting_id : ℕ) → List Item → List Item
items_of meeting = keep (λ i. i.meeting_id == meeting)

-- What the code reads off texts by structured_facts.py, and the confidence of the keyword tier.
pub record Facts : Type 0 where
  pub proper_nouns : Text → List Text
  pub dollar_amounts : Text → List ℕ
  pub same_amounts : List ℕ → List ℕ → Bool
  pub confidence : Score → Option Score → ℕ

module _ (u : Unicode) (f : Facts) where
  -- The chain of `or`s.
  unfoldable pub best_tier : Vote → List Item → Option Tier
  best_tier v items = first_of (try_resolution_match u v items) (
      first_of (try_item_number_match u v items) (
        first_of (try_structured_fact_match f.proper_nouns f.dollar_amounts f.same_amounts v items)
          (try_keyword_match u f.confidence v items)))

  abbrev substantive_link : Vote → Tier → NewLink
  substantive_link v t = record {
    vote_id = v.id;
    agenda_item_id = t.item_id;
    association_type = explicit;
    match_method = t.method;
    match_confidence = t.confidence;
    excerpt_context = stated (some (take 300 (or_empty v.match_context)));
    provisional = false;
  }

  -- The body of the loop.
  unfoldable pub substantive_links : List Item → Vote → List NewLink
  substantive_links items v = elim (is_consent_block u v) [
    | true ↦ []
    | false ↦ elim (best_tier v items) [ none ↦ [] | some t ↦ substantive_link v t ∷ [] ]
  ]

  unfoldable pub match_substantive : (meeting_id : ℕ) → List Item → List Vote → List Link → Matched
  match_substantive meeting items votes links =
      let rows = items_of meeting items in
      unless_none rows links (
        write_votes (substantive_links rows) (unlinked_votes meeting is_minutes links votes)
          (record { links = links; matched = 0 }))
