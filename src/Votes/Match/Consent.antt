-- ===== src/Votes/Match/Consent.antt =====
-- analysis/vote_matcher.py: _match_consent_block.
use docket_pub.Prelude.{
  ℕ, Bool, true, false, ◌&&◌, not, Option, none, some, List, [], ◌∷◌, ◌++◌, map, Text, codes, leb,
  ◌==◌, any, keep, length, contains, if◌then◌else◌,
}
use docket_pub.Regex.{Regex, eps, boundary, seq, alt, spaces, lit, fold, found, is_space}
use docket_pub.Alignment.Types.{stated}
use docket_pub.Votes.Types.{
  Vote, Item, Link, AssociationType, consent_named, consent_implicit, MatchMethod,
  consent_block_named, consent_block_default, is_minutes,
}
use docket_pub.Votes.Links.{NewLink}
use docket_pub.Votes.Words.{
  Unicode, or_empty, vote_text, is_consent_block, significant_words, shared_words,
  named_callout_threshold, extract_snippet,
}
use docket_pub.Votes.Match.{Matched, write_votes, unlinked_votes, unless_none}

-- The consent items of the meeting.
unfoldable pub consent_items_of : (meeting_id : ℕ) → List Item → List Item
consent_items_of meeting = keep (λ i. i.meeting_id == meeting && i.is_consent)

-- \b(?:item|ITEM)\s+(?:no\.?\s*)?{re.escape(item_num)}\b under re.IGNORECASE
abbrev pub callout_pattern : Text → Regex
callout_pattern n =
    let optional_no =
      alt (seq (lit (codes "no")) (seq (alt (lit (codes ".")) eps) (alt spaces eps))) eps in
    seq boundary
      (seq (lit (codes "item")) (seq spaces (seq optional_no (seq (lit (map fold n)) boundary))))

-- The order of texts by their characters.
unfoldable pub text_before : Text → Text → Bool
text_before s [] = false
text_before [] (d ∷ ds) = true
text_before (c ∷ cs) (d ∷ ds) = let rest = text_before cs ds in if c == d then rest else leb c d

-- min(overlap_words), and "" of none.
unfoldable pub least_text : List Text → Text
least_text [] = []
least_text (t ∷ []) = t
least_text (t ∷ s ∷ ts) = let rest = least_text (s ∷ ts) in if text_before rest t then rest else t

abbrev pub consent_link :
    Vote
    → Item
    → AssociationType
    → MatchMethod
    → (match_confidence : ℕ) → (excerpt : Option Text) → NewLink
consent_link v i type method confidence excerpt = record {
  vote_id = v.id;
  agenda_item_id = i.id;
  association_type = type;
  match_method = method;
  match_confidence = confidence;
  excerpt_context = excerpt;
  provisional = true;
}

module _ (u : Unicode) where
  -- Whether the vote names the number of the item.
  unfoldable pub names_number : Vote → Item → Bool
  names_number v i = elim (stated i.item_number) [
    | none ↦ false
    | some n ↦ found u.word (callout_pattern n) (vote_text u v)
  ]

  -- The words that name the item, if they are enough.
  unfoldable pub naming_words : (text_words : List Text) → Item → Option (List Text)
  naming_words ws i =
      let title_words = significant_words u (or_empty i.title) in
      let overlap_words = shared_words title_words ws in
      elim (named_callout_threshold (length title_words)) [
        | none ↦ none
        | some threshold ↦ if leb threshold (length overlap_words) then some overlap_words else none
      ]

  -- The link of an item that the vote names.
  unfoldable pub named_link : (text_words : List Text) → Vote → Item → Option NewLink
  named_link ws v i = elim (names_number v i) [
    | true ↦ some (
        consent_link v i consent_named consent_block_named 100
          (extract_snippet u (or_empty v.raw_text) (or_empty i.item_number)))
    | false ↦ elim (naming_words ws i) [
      | none ↦ none
      | some overlap ↦ some (
          consent_link v i consent_named consent_block_named 100
            (extract_snippet u (or_empty v.raw_text) (least_text overlap)))
    ]
  ]

  -- The named callout pass.
  unfoldable pub named_links : (text_words : List Text) → Vote → List Item → List NewLink
  named_links ws v [] = []
  named_links ws v (i ∷ is) =
      let rest = named_links ws v is in elim (named_link ws v i) [ none ↦ rest | some n ↦ n ∷ rest ]

  -- The default fill pass, behind the ids that were named.
  unfoldable pub default_links : (named_ids : List ℕ) → Vote → List Item → List NewLink
  default_links named v [] = []
  default_links named v (i ∷ is) =
      let rest = default_links named v is in
      if contains i.id named
      then rest
      else consent_link v i consent_implicit consent_block_default 80 none ∷ rest

  -- The body of the loop.
  unfoldable pub consent_links : List Item → Vote → List NewLink
  consent_links items v =
      if is_consent_block u v && any (λ c. not (is_space c)) (vote_text u v)
      then (let named = named_links (significant_words u (vote_text u v)) v items in
          named ++ default_links (map (λ n. n.agenda_item_id) named) v items)
      else []

  unfoldable pub match_consent_block :
      (meeting_id : ℕ) → List Item → List Vote → List Link → Matched
  match_consent_block meeting items votes links =
      let rows = consent_items_of meeting items in
      unless_none rows links (
        write_votes (consent_links rows) (unlinked_votes meeting is_minutes links votes)
          (record { links = links; matched = 0 }))
