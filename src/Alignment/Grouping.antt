-- ===== src/Alignment/Grouping.antt =====
-- ai/transcripts/aligner.py: group_key, and the groups of align.
pub mod Holds
use docket_pub.Prelude.{
  ℕ, Bool, true, false, ◌&&◌, ◌||◌, none, some, List, [], ◌∷◌, ◌++◌, Text, all, any, length, ltb,
  ◌==◌, take, contains, same_text, sorted_set, if◌then◌else◌,
}
use docket_pub.Alignment.Types.{
  Event, consent_amendment, same_type, Scope, consent_block, meeting, stated,
}
use docket_pub.Guard.Normalize.{normalize}

pub data GroupKey : Type 0 where
  unlisted_key : Text → GroupKey
  meeting_key consent_key : GroupKey
  item_key : List ℕ → GroupKey

abbrev pub same_numbers : List ℕ → List ℕ → Bool
same_numbers [] [] = true
same_numbers (n ∷ ns) (m ∷ ms) = n == m && same_numbers ns ms
same_numbers _ _ = false

unfoldable pub same_key : GroupKey → GroupKey → Bool
same_key (unlisted_key s) (unlisted_key t) = same_text s t
same_key meeting_key meeting_key = true
same_key consent_key consent_key = true
same_key (item_key ns) (item_key ms) = same_numbers ns ms
same_key _ _ = false

abbrev is_meeting_scope : Scope → Bool
is_meeting_scope meeting = true
is_meeting_scope _ = false

abbrev is_consent_scope : Scope → Bool
is_consent_scope consent_block = true
is_consent_scope _ = false

abbrev is_within : List ℕ → List ℕ → Bool
is_within refs block = all (λ n. contains n block) refs

-- The key of an event with items.
abbrev listed_key : Event → List ℕ → GroupKey
listed_key e block =
    if is_consent_scope e.scope
      || (ltb 1 (length (sorted_set e.item_refs)) && is_within e.item_refs block)
    then consent_key
    else item_key (sorted_set e.item_refs)

-- `a & b`
abbrev pub overlap : List ℕ → List ℕ → Bool
overlap ns ms = any (λ n. contains n ms) ns

-- `key[0] == "item" and settled & set(key[1])`
abbrev pub touches : GroupKey → List ℕ → Bool
touches (item_key ns) settled = overlap settled ns
touches _ settled = false

-- Two timelines' events of one group.
pub record Group : Type 0 where
  pub key : GroupKey
  pub ts : List Event
  pub ms : List Event

-- groups.setdefault(key, ([], [])), and the change that is made to the group.
unfoldable pub put_group : GroupKey → (Group → Group) → List Group → List Group
put_group k change [] = change (record { key = k; ts = []; ms = [] }) ∷ []
put_group k change (g ∷ gs) =
    let rest = put_group k change gs in
    elim (same_key k g.key) [ true ↦ change g ∷ gs | false ↦ g ∷ rest ]

-- An append on one of the sides.
abbrev pub add_transcript : Event → Group → Group
add_transcript e g = record g { ts = g.ts ++ e ∷ [] }

abbrev pub add_minutes : Event → Group → Group
add_minutes e g = record g { ms = g.ms ++ e ∷ [] }

-- A consent amendment that names a settled item.
unfoldable pub is_settled_amendment : (settled : List ℕ) → Event → Bool
is_settled_amendment settled e =
    same_type e.event_type consent_amendment && overlap (e.detail.items ++ e.item_refs) settled

module _ (fold : ℕ → Text) where
  unfoldable pub group_key : Event → (block : List ℕ) → GroupKey
  group_key e block = elim e.item_refs [
    | [] ↦ elim (stated e.detail.unlisted_item) [
      | some t ↦ unlisted_key (take 60 (normalize fold t))
      | none ↦ meeting_key
    ]
    | _ ∷ _ ↦ if is_meeting_scope e.scope then meeting_key else listed_key e block
  ]

  unfoldable pub group_transcript : (settled block : List ℕ) → List Event → List Group → List Group
  group_transcript settled block [] gs = gs
  group_transcript settled block (e ∷ es) gs = group_transcript settled block es (
      if is_settled_amendment settled e
      then gs
      else put_group (group_key e block) (add_transcript e) gs)

  unfoldable pub group_minutes : (settled block : List ℕ) → List Event → List Group → List Group
  group_minutes settled block [] gs = gs
  group_minutes settled block (e ∷ es) gs = group_minutes settled block es (
      if is_settled_amendment settled e
      then gs
      else put_group (group_key e block) (add_minutes e) gs)
