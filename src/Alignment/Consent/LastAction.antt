-- ===== src/Alignment/Consent/LastAction.antt =====
-- ai/transcripts/aligner.py: which items the effective consent block holds.
use docket_pub.Prelude.{
  ℕ, ◌≡◌, refl, Bool, true, false, ◌&&◌, ◌||◌, not, Option, none, some, List, [], ◌∷◌, ◌++◌,
  contains, keep, Bool-cases, inl, inr, arith, ◌==◌, ==_iff, Option-cases,
}
use docket_pub.Alignment.Types.{Event, consent_amendment, same_type}
use docket_pub.Alignment.Consent.{
  ConsentAction, pulled, added, neither, consent_action, sort, amended, amend, amend_all,
  effective_consent_block,
}

-- What an event does to an item's place: nothing, or whether the item is in the block after it.
abbrev pub verdict : ℕ → Event → Option Bool
verdict n e = elim (same_type e.event_type consent_amendment && contains n (amended e)) [
  | false ↦ none
  | true ↦ elim (consent_action e.detail.action) [
    | neither ↦ none
    | pulled ↦ some false
    | added ↦ some true
  ]
]

-- The verdict of the last event that has one.
abbrev pub last_verdict : ℕ → List Event → Option Bool
last_verdict n [] = none
last_verdict n (e ∷ es) = elim (last_verdict n es) [ some b ↦ some b | none ↦ verdict n e ]

abbrev pub or_published : Bool → Option Bool → Bool
or_published p none = p
or_published p (some b) = b

contains-append :
    (n : ℕ) (xs ys : List ℕ) → contains n (xs ++ ys) ≡ (contains n xs || contains n ys)
contains-append n [] ys = refl
contains-append n (x ∷ xs) ys = ground (arith, contains-append n xs ys)

contains-keep :
    (n : ℕ) (p : ℕ → Bool) (xs : List ℕ) → contains n (keep p xs) ≡ (contains n xs && p n)
contains-keep n p [] = refl
contains-keep n p (x ∷ xs) = elim (Bool-cases (n == x)) [
  | inl e ↦
      let q : n ≡ x = (==_iff n x).0 e in
      elim (Bool-cases (p x)) [
        | inl h ↦ let h' : p n ≡ true = cc (h, q) in rw (h, e, h') refl
        | inr h ↦
            let h' : p n ≡ false = cc (h, q) in rw (h, contains-keep n p xs, h') (ground arith)
      ]
  | inr e ↦ elim (Bool-cases (p x)) [
    | inl h ↦ rw (h, e) (contains-keep n p xs)
    | inr h ↦ rw (h, e) (contains-keep n p xs)
  ]
]

-- By what the event is and does.
contains_by :
    (n : ℕ) (is_amendment : Bool) (action : ConsentAction) (items block : List ℕ)
    → contains n (elim is_amendment [
      | false ↦ block
      | true ↦ elim action [
        | neither ↦ block
        | pulled ↦ keep (λ k. not (contains k items)) block
        | added ↦ block ++ items
      ]
    ])
      ≡ or_published (contains n block) (elim (is_amendment && contains n items) [
        | false ↦ none
        | true ↦ elim action [ neither ↦ none | pulled ↦ some false | added ↦ some true ]
      ])
contains_by n false action items block = refl
contains_by n true neither items block = ground arith
contains_by n true pulled items block =
    rw (contains-keep n (λ k. not (contains k items)) block) (ground arith)
contains_by n true added items block = rw (contains-append n block items) (ground arith)

contains-amend :
    (n : ℕ) (e : Event) (block : List ℕ)
    → contains n (amend e block) ≡ or_published (contains n block) (verdict n e)
unfolding amend
contains-amend n e block =
    contains_by n (same_type e.event_type consent_amendment) (consent_action e.detail.action)
      (amended e) block

contains-amend_all :
    (n : ℕ) (es : List Event) (block : List ℕ)
    → contains n (amend_all es block) ≡ or_published (contains n block) (last_verdict n es)
unfolding amend_all
contains-amend_all n [] block = refl
contains-amend_all n (e ∷ es) block = elim (Option-cases (last_verdict n es)) [
  | inl q ↦ rw (contains-amend_all n es (amend e block), q) (contains-amend n e block)
  | inr (b, q) ↦ rw (contains-amend_all n es (amend e block), q) refl
]

-- An item is in the effective consent block exactly if the last consent amendment, in timeline
-- order, that pulls or adds it adds it, or there is none and it was published in the block: a pull
-- and then an add re-admits it.
pub consent-last_verdict :
    (published : List ℕ) (events : List Event) (n : ℕ)
    → contains n (effective_consent_block published events)
      ≡ or_published (contains n published) (last_verdict n (sort events))
unfolding effective_consent_block
consent-last_verdict published events n = contains-amend_all n (sort events) published
