-- ===== src/Alignment/Consent.antt =====
-- ai/transcripts/aligner.py: effective_consent_block.
pub mod LastAction
use docket_pub.Prelude.{
  ℕ, true, false, not, Option, none, some, List, [], ◌∷◌, ◌++◌, leb, contains, keep, if◌then◌else◌,
  Text, codes, same_text,
}
use docket_pub.Alignment.Types.{Event, consent_amendment, same_type}

-- sorted by seq, stable
unfoldable pub insert : Event → List Event → List Event
insert e [] = e ∷ []
insert e (f ∷ fs) = let rest = insert e fs in if leb e.seq f.seq then e ∷ f ∷ fs else f ∷ rest

unfoldable pub sort : List Event → List Event
sort [] = []
sort (e ∷ es) = insert e (sort es)

-- `set(detail["items"] or []) or set(item_refs)`
unfoldable pub amended : Event → List ℕ
amended e = elim e.detail.items [ [] ↦ e.item_refs | n ∷ ns ↦ n ∷ ns ]

pub data ConsentAction : Type 0 where
  pulled added neither : ConsentAction

-- The tests on detail["action"].
unfoldable pub consent_action : Option Text → ConsentAction
consent_action none = neither
consent_action (some a) =
    if same_text a (codes "pulled")
    then pulled
    else if same_text a (codes "added")
    then added
    else neither

-- The body of the loop.
unfoldable pub amend : Event → List ℕ → List ℕ
amend e block = elim (same_type e.event_type consent_amendment) [
  | false ↦ block
  | true ↦ elim (consent_action e.detail.action) [
    | neither ↦ block
    | pulled ↦ keep (λ n. not (contains n (amended e))) block
    | added ↦ block ++ amended e
  ]
]

unfoldable pub amend_all : List Event → List ℕ → List ℕ
amend_all [] block = block
amend_all (e ∷ es) block = amend_all es (amend e block)

unfoldable pub effective_consent_block : (published : List ℕ) → List Event → List ℕ
effective_consent_block published events = amend_all (sort events) published
