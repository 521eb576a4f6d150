-- ===== src/Assembly/Nearest.antt =====
-- ai/transcripts/compare.py: nearest_event, and the anchors of a hunted finding that is found nowhere.
use docket_pub.Prelude.{
  ℕ, ◌+◌, ◌-◌, Option, none, some, List, [], ◌∷◌, keep, find?, leb, if◌then◌else◌,
}
use docket_pub.Alignment.Types.{Event}
use docket_pub.Alignment.Grouping.{overlap}

-- abs(a - b)
abbrev gap : ℕ → ℕ → ℕ
gap a b = (a - b) + (b - a)

abbrev gap_between : Option ℕ → Option ℕ → Option ℕ
gap_between (some a) (some b) = some (gap a b)
gap_between _ _ = none

-- dist; none is infinite.
unfoldable pub distance : (start_s char_offset : Option ℕ) → Event → Option ℕ
distance s c e = elim (gap_between e.start_s s) [
  | some d ↦ some d
  | none ↦ gap_between e.char_offset c
]

-- min(pool, key=dist) over the events at a finite distance, the first of the nearest.
unfoldable pub nearest_of : (start_s char_offset : Option ℕ) → List Event → Option (Event × ℕ)
nearest_of s c [] = none
nearest_of s c (e ∷ es) =
    let rest = nearest_of s c es in
    elim (distance s c e) [
      | none ↦ rest
      | some d ↦ elim rest [
        | none ↦ some (e, d)
        | some (f, k) ↦ if leb d k then some (e, d) else some (f, k)
      ]
    ]

abbrev or_all : List Event → List Event → List Event
or_all [] es = es
or_all (p ∷ ps) es = p ∷ ps

abbrev event_of : Option (Event × ℕ) → Option Event
event_of none = none
event_of (some (e, _)) = some e

unfoldable pub nearest_event :
    List Event → (start_s char_offset : Option ℕ) → (refs : List ℕ) → Option Event
nearest_event es s c refs =
    event_of (nearest_of s c (or_all (keep (λ e. overlap e.item_refs refs) es) es))

-- `shared`: the first event on one of the items.
unfoldable pub shared_event : (refs : List ℕ) → List Event → Option Event
shared_event refs es = find? (λ e. overlap e.item_refs refs) es

abbrev pub first_event : List Event → Option Event
first_event [] = none
first_event (e ∷ _) = some e
