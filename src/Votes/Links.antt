-- ===== src/Votes/Links.antt =====
-- analysis/vote_matcher.py: _upsert_link on the rows of vote_agenda_items.
pub mod Shield
use docket_pub.Prelude.{
  ℕ, Bool, true, false, ◌&&◌, not, Option, some, List, [], ◌∷◌, ◌++◌, map, Text, ◌==◌, any,
  if◌then◌else◌,
}
use docket_pub.Votes.Types.{Link, AssociationType, MatchMethod}

-- The row that a call of _upsert_link asks for.
pub record NewLink : Type 0 where
  pub vote_id : ℕ
  pub agenda_item_id : ℕ
  pub association_type : AssociationType
  pub match_method : MatchMethod
  pub match_confidence : ℕ
  pub excerpt_context : Option Text
  pub provisional : Bool

unfoldable pub inserted : NewLink → Link
inserted n = record {
  vote_id = n.vote_id;
  agenda_item_id = n.agenda_item_id;
  association_type = n.association_type;
  match_method = some n.match_method;
  match_confidence = n.match_confidence;
  excerpt_context = n.excerpt_context;
  provisional = n.provisional;
  is_manual = false;
  is_active = true;
}

-- DO UPDATE SET: what it does not name stays.
unfoldable pub updated : NewLink → Link → Link
updated n l = record l {
  association_type = n.association_type;
  match_method = some n.match_method;
  match_confidence = n.match_confidence;
  excerpt_context = n.excerpt_context;
}

unfoldable pub same_pair : NewLink → Link → Bool
same_pair n l = l.vote_id == n.vote_id && l.agenda_item_id == n.agenda_item_id

-- ON CONFLICT DO UPDATE ... WHERE is_manual = FALSE
unfoldable pub on_conflict : NewLink → Link → Link
on_conflict n l = if same_pair n l && not l.is_manual then updated n l else l

unfoldable pub upsert_link : NewLink → List Link → List Link
upsert_link n links = elim (any (same_pair n) links) [
  | true ↦ map (on_conflict n) links
  | false ↦ links ++ inserted n ∷ []
]
