-- ===== src/Votes/Reparse/Enumerated.antt =====
-- analysis/vote_matcher.py: _parse_enumerated_consent_list and _resolve_enumerated_to_agenda_items.
use docket_pub.Prelude.{
  ℕ, zero, suc, ◌-◌, Bool, true, false, ◌&&◌, ◌||◌, Option, none, some, List, [], ◌∷◌, ◌++◌, Text,
  codes, leb, ltb, ◌==◌, length, find?, contains, if◌then◌else◌,
}
use docket_pub.Regex.{fold, found}
use docket_pub.Discrepancies.Citations.{strip}
use docket_pub.Votes.Types.{Item}
use docket_pub.Votes.Words.{Unicode, or_empty, significant_words, shared_words}
use docket_pub.Votes.Tiers.{number_pattern, item_text, drop_spaces, begins_space}
use docket_pub.Votes.Match.Consent.{consent_items_of}

pub record Entry : Type 0 where
  pub num : Text
  pub desc : Text

-- What follows a lower-case literal that a text begins with under re.IGNORECASE.
unfoldable pub after_literal : Text → Text → Option Text
after_literal [] t = some t
after_literal (a ∷ bs) [] = none
after_literal (a ∷ bs) (c ∷ cs) =
    let rest = after_literal bs cs in if fold c == a then rest else none

-- (?:RESOLUTION|ORDINANCE)
abbrev after_keyword : Text → Option Text
after_keyword t = elim (after_literal (codes "resolution") t) [
  | some r ↦ some r
  | none ↦ after_literal (codes "ordinance") t
]

-- (?:NO\.\s*)?, in front of what is not an n.
abbrev after_no : Text → Text
after_no t = elim (after_literal (codes "no.") t) [ some r ↦ drop_spaces r | none ↦ t ]

abbrev is_line_end : ℕ → Bool
is_line_end c = c == 10 || c == 13

-- [^\n\r]{0,n}, and what follows it.
unfoldable pub desc_at : ℕ → Text → Text × Text
desc_at zero t = ([], t)
desc_at (suc n) [] = ([], [])
desc_at (suc n) (c ∷ cs) =
    let (desc, rest) = desc_at n cs in if is_line_end c then ([], c ∷ cs) else (c ∷ desc, rest)

module _ (u : Unicode) where
  -- [\d-]*, and what follows it.
  unfoldable pub number_at : Text → Text × Text
  number_at [] = ([], [])
  number_at (c ∷ cs) =
      let (number, rest) = number_at cs in
      if u.digit c || c == b'-' then (c ∷ number, rest) else ([], c ∷ cs)

  -- The number, the spaces and the description; and what follows the match.
  abbrev described : Text → Text → Option (Entry × Text)
  described n rest =
      let (desc, after) = desc_at 200 (drop_spaces rest) in
      if begins_space rest then some ((record { num = n; desc = strip desc }), after) else none

  abbrev numbered : Text → Option (Entry × Text)
  numbered [] = none
  numbered (c ∷ cs) =
      let (number, rest) = number_at cs in if u.digit c then described (c ∷ number) rest else none

  -- The match where a text begins.
  unfoldable pub entry_at : Text → Option (Entry × Text)
  entry_at t = elim (after_keyword t) [
    | none ↦ none
    | some r ↦ if begins_space r then numbered (after_no (drop_spaces r)) else none
  ]

  -- finditer, with the characters that are left of the last match.
  unfoldable pub entries_from : (skip : ℕ) → Text → List Entry
  entries_from skip [] = []
  entries_from (suc k) (c ∷ cs) = entries_from k cs
  entries_from zero (c ∷ cs) = elim (entry_at (c ∷ cs)) [
    | none ↦ entries_from zero cs
    | some (e, after) ↦ e ∷ entries_from (length cs - length after) cs
  ]

  unfoldable pub parse_enumerated_consent_list : Text → List Entry
  parse_enumerated_consent_list t = entries_from 0 t

  -- The loop over the items of the keyword fallback.
  unfoldable pub best_overlap_from :
      (desc_words : List Text) → (best_overlap : ℕ) → (best_id : Option ℕ) → List Item → Option ℕ
  best_overlap_from ws best best_id [] = best_id
  best_overlap_from ws best best_id (i ∷ is) =
      let overlap = length (shared_words (significant_words u (or_empty i.title)) ws) in
      elim (leb 3 overlap && ltb best overlap) [
        | true ↦ best_overlap_from ws overlap (some i.id) is
        | false ↦ best_overlap_from ws best best_id is
      ]

  -- The body of the loop over the entries.
  unfoldable pub resolve_entry : List Item → Entry → Option ℕ
  resolve_entry items e =
      elim (find? (λ i. found u.word (number_pattern e.num) (item_text i)) items) [
        | some i ↦ some i.id
        | none ↦ elim (ltb (length (significant_words u e.desc)) 3) [
          | true ↦ none
          | false ↦ best_overlap_from (significant_words u e.desc) 0 none items
        ]
      ]

  -- A set as a list without repeated ids, in the order in which they were added.
  abbrev add_id : Option ℕ → List ℕ → List ℕ
  add_id none ids = ids
  add_id (some i) ids = if contains i ids then ids else ids ++ i ∷ []

  unfoldable pub resolve_entries : List Item → List Entry → List ℕ → List ℕ
  resolve_entries items [] ids = ids
  resolve_entries items (e ∷ es) ids = resolve_entries items es (add_id (resolve_entry items e) ids)

  unfoldable pub resolve_enumerated : (meeting_id : ℕ) → List Item → List Entry → List ℕ
  resolve_enumerated meeting items es = resolve_entries (consent_items_of meeting items) es []
