-- ===== src/Votes/Tiers.antt =====
-- analysis/vote_matcher.py: the four tiers of _match_substantive. Scores are compared as fractions,
-- without the rounding of floating point.
pub mod Keyword
use docket_pub.Prelude.{
  ℕ, ◌+◌, Bool, true, false, ◌&&◌, ◌||◌, not, Option, none, some, List, [], ◌∷◌, ◌++◌, Text, codes,
  ltb, ◌==◌, length, drop, find?, same_text, if◌then◌else◌,
}
use docket_pub.Regex.{Regex, boundary, seq, plain, found, is_space}
use docket_pub.Alignment.Types.{stated}
use docket_pub.Guard.Find.{starts_with}
use docket_pub.Votes.Types.{
  Vote, Item, MatchMethod, resolution_number, item_number, structured_fact,
}
use docket_pub.Votes.Words.{Unicode, or_empty, shared_words}

-- What a tier returns: the item, the confidence and the method.
pub record Tier : Type 0 where
  pub item_id : ℕ
  pub confidence : ℕ
  pub method : MatchMethod

-- \b{re.escape(number)}\b
abbrev pub number_pattern : Text → Regex
number_pattern n = seq boundary (seq (plain n) boundary)

-- (title or "") + " " + (description or "")
abbrev pub item_text : Item → Text
item_text i = or_empty i.title ++ (b' ' ∷ or_empty i.description)

-- raw_text or match_context or ""
unfoldable pub own_text : Vote → Text
own_text v = elim (stated v.raw_text) [ some t ↦ t | none ↦ or_empty (stated v.match_context) ]

abbrev pub drop_spaces : Text → Text
drop_spaces [] = []
drop_spaces (c ∷ cs) = elim (is_space c) [ true ↦ drop_spaces cs | false ↦ c ∷ cs ]

abbrev drop_dot : Text → Text
drop_dot [] = []
drop_dot (c ∷ cs) = if c == b'.' then cs else c ∷ cs

abbrev pub begins_space : Text → Bool
begins_space [] = false
begins_space (c ∷ _) = is_space c

abbrev pub first_of : Option Tier → Option Tier → Option Tier
first_of none o = o
first_of (some t) o = some t

module _ (u : Unicode) where
  unfoldable pub try_resolution_match : Vote → List Item → Option Tier
  try_resolution_match v items = elim (stated v.resolution_number) [
    | none ↦ none
    | some n ↦ elim (find? (λ i. found u.word (number_pattern n) (item_text i)) items) [
      | none ↦ none
      | some i ↦ some (record { item_id = i.id; confidence = 90; method = resolution_number })
    ]
  ]

  -- The digits that a text begins with.
  unfoldable pub digits_at : Text → Text
  digits_at [] = []
  digits_at (c ∷ cs) = elim (u.digit c) [ true ↦ c ∷ digits_at cs | false ↦ [] ]

  -- (?:No\.?\s*)?(\d+)
  abbrev optional_no : Text → Option Text
  optional_no t =
      elim (stated (
        if starts_with (codes "No") t
        then some (digits_at (drop_spaces (drop_dot (drop 2 t))))
        else none)) [ some n ↦ some n | none ↦ stated (some (digits_at t)) ]

  -- (?:Item|ITEM)\s+(?:No\.?\s*)?(\d+), where a text begins.
  unfoldable pub item_at_head : Text → Option Text
  item_at_head t =
      if starts_with (codes "Item") t || starts_with (codes "ITEM") t
      then (if begins_space (drop 4 t) then optional_no (drop_spaces (drop 4 t)) else none)
      else none

  -- #(\d+), where a text begins.
  unfoldable pub hash_at_head : Text → Option Text
  hash_at_head [] = none
  hash_at_head (c ∷ cs) = if c == b'#' then stated (some (digits_at cs)) else none

  -- re.search(...).group(1), by what stands at the head of a text.
  unfoldable pub search_for : (Text → Option Text) → Text → Option Text
  search_for f [] = none
  search_for f (c ∷ cs) = elim (f (c ∷ cs)) [ some n ↦ some n | none ↦ search_for f cs ]

  unfoldable pub target_number : Text → Option Text
  target_number t = elim (search_for item_at_head t) [
    | some n ↦ some n
    | none ↦ search_for hash_at_head t
  ]

  abbrev has_number : Text → Option Text → Bool
  has_number n none = false
  has_number n (some m) = same_text m n

  unfoldable pub try_item_number_match : Vote → List Item → Option Tier
  try_item_number_match v items = elim (target_number (own_text v)) [
    | none ↦ none
    | some n ↦ elim (find? (λ i. has_number n i.item_number) items) [
      | none ↦ none
      | some i ↦ some (record { item_id = i.id; confidence = 70; method = item_number })
    ]
  ]

-- The leader of the structured-fact tier.
pub record Lead : Type 0 where
  pub item_id : Option ℕ
  pub nouns : ℕ
  pub has_dollar : Bool

abbrev same_bool : Bool → Bool → Bool
same_bool true b = b
same_bool false b = not b

-- One item, with the count of its shared nouns and whether it shares an amount; none on a tie.
unfoldable pub race : ℕ → (nouns : ℕ) → (dollar : Bool) → Lead → Option Lead
race id n d lead =
    if n == 0
    then some lead
    else if ltb lead.nouns n || (n == lead.nouns && d && not lead.has_dollar)
    then some (record { item_id = some id; nouns = n; has_dollar = d })
    else if n == lead.nouns && same_bool d lead.has_dollar
    then none
    else some lead

module _ (proper_nouns : Text → List Text) (dollar_amounts : Text → List ℕ)
    (same_amounts : List ℕ → List ℕ → Bool) where
  unfoldable pub race_all :
      (vote_nouns : List Text) → (vote_dollars : List ℕ) → List Item → Lead → Option Lead
  race_all ns ds [] lead = some lead
  race_all ns ds (i ∷ is) lead =
      elim (race i.id (length (shared_words ns (proper_nouns (item_text i))))
        (same_amounts ds (dollar_amounts (item_text i))) lead) [
          | none ↦ none
          | some next ↦ race_all ns ds is next
        ]

  abbrev led : Option Lead → Option Tier
  led none = none
  led (some l) = elim l.item_id [
    | none ↦ none
    | some id ↦ some (record {
      item_id = id;
      confidence = if l.has_dollar then 90 else 80;
      method = structured_fact;
    })
  ]

  unfoldable pub try_structured_fact_match : Vote → List Item → Option Tier
  try_structured_fact_match v items = elim (proper_nouns (own_text v)) [
    | [] ↦ none
    | n ∷ ns ↦ led (
        race_all (n ∷ ns) (dollar_amounts (own_text v)) items
          (record { item_id = none; nouns = 0; has_dollar = false }))
  ]
