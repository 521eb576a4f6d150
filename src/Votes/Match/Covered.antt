-- ===== src/Votes/Match/Covered.antt =====
-- analysis/vote_matcher.py: every consent item gets a row with a vote on the consent block.
use docket_pub.Prelude.{
  ℕ, suc, ◌≡◌, refl, sym, ap, subst, ◌∙◌, Bool, true, false, ◌||◌, not, Option, none, some, List,
  [], ◌∷◌, ◌++◌, map, Text, codes, ◌==◌, any, arith, Bool-cases, Option-cases, inl, inr,
  if◌then◌else◌, In, All-In, In-of_any, contains, &&_parts, ==_iff,
}
use docket_pub.Regex.{is_space}
use docket_pub.Guard.Find.{find_text, starts_with}
use docket_pub.Votes.Types.{Vote, Item, Link, is_minutes}
use docket_pub.Votes.Links.{NewLink}
use docket_pub.Votes.Words.{
  Unicode, occurs, vote_text, is_consent_block, consent_block_phrases, significant_words,
}
use docket_pub.Votes.Match.{unlinked_votes}
use docket_pub.Votes.Match.Written.{has_pair, links_item, write_votes-pair, unless_none-pair}
use docket_pub.Votes.Match.Consent.{
  consent_items_of, named_link, named_links, default_links, consent_links, match_consent_block,
  naming_words, names_number,
}

-- Whether a text has a character that is no space.
abbrev inked : Text → Bool
inked = any (λ c. not (is_space c))

starts_with-inked :
    (needle t : Text) → starts_with needle t ≡ true → inked needle ≡ true → inked t ≡ true
unfolding starts_with
starts_with-inked [] t h k = absurd (cc k)
starts_with-inked (a ∷ bs) [] h k = absurd (cc h)
starts_with-inked (a ∷ bs) (c ∷ cs) h k =
    let parts = &&_parts (a == c) (starts_with bs cs) h in
    let e = (==_iff a c).0 parts.0 in
    elim (Bool-cases (is_space a)) [
      | inl q ↦ ground (arith, starts_with-inked bs cs parts.1 (rw q at k))
      | inr q ↦ let z : is_space c ≡ false = subst (λ x. is_space x ≡ false) e q in rw z refl
    ]

is_hit : Option ℕ → Bool
is_hit none = false
is_hit (some _) = true

hit-cons :
    (b : Bool) (o : Option ℕ)
    → is_hit (if b then some 0 else elim o [ none ↦ none | some i ↦ some (suc i) ])
      ≡ (b || is_hit o)
unfolding is_hit
hit-cons true o = refl
hit-cons false none = refl
hit-cons false (some i) = refl

occurs-hit : (needle t : Text) → occurs needle t ≡ is_hit (find_text needle t)
unfolding occurs is_hit
occurs-hit needle t =
    elim (find_text needle t) as (λ o. (elim o [ none ↦ false | some _ ↦ true ]) ≡ is_hit o) [
      | none ↦ refl
      | some i ↦ refl
    ]

occurs-cons :
    (needle : Text) (c : ℕ) (cs : Text)
    → occurs needle (c ∷ cs) ≡ (starts_with needle (c ∷ cs) || occurs needle cs)
unfolding find_text
occurs-cons needle c cs =
    occurs-hit needle (c ∷ cs)
    ∙ (hit-cons (starts_with needle (c ∷ cs)) (find_text needle cs)
        ∙ ap (λ b. starts_with needle (c ∷ cs) || b) (sym (occurs-hit needle cs)))

hit_if : (b : Bool) → is_hit (if b then some 0 else none) ≡ b
unfolding is_hit
hit_if true = refl
hit_if false = refl

occurs-nil : (needle : Text) → occurs needle [] ≡ starts_with needle []
unfolding find_text
occurs-nil needle = occurs-hit needle [] ∙ hit_if (starts_with needle [])

occurs-inked : (needle t : Text) → occurs needle t ≡ true → inked needle ≡ true → inked t ≡ true
occurs-inked needle [] h k = starts_with-inked needle [] (sym (occurs-nil needle) ∙ h) k
occurs-inked needle (c ∷ cs) h k = elim (Bool-cases (starts_with needle (c ∷ cs))) [
  | inl e ↦ starts_with-inked needle (c ∷ cs) e k
  | inr e ↦ ground (arith, occurs-inked needle cs (rw (occurs-cons needle c cs, e) at h) k)
]

links_item-append :
    (v i : ℕ) (ms ns : List NewLink)
    → links_item v i (ms ++ ns) ≡ (links_item v i ms || links_item v i ns)
links_item-append v i [] ns = refl
links_item-append v i (m ∷ ms) ns = rw (links_item-append v i ms ns) (ground arith)

module _ (u : Unicode) where
  vote_of : ℕ → Option NewLink → ℕ
  vote_of d none = d
  vote_of d (some n) = n.vote_id

  named_link-vote :
      (ws : List Text) (v : Vote) (j : Item) → vote_of v.id (named_link u ws v j) ≡ v.id
  unfolding named_link vote_of
  named_link-vote ws v j = elim (Bool-cases (names_number u v j)) [
    | inl e ↦ rw (e, named_link) refl
    | inr e ↦ elim (Option-cases (naming_words u ws j)) [
      | inl q ↦ rw (named_link, e, q) refl
      | inr (o, q) ↦ rw (named_link, e, q) refl
    ]
  ]

  -- The links of the named pass are the vote's.
  named_links-pair :
      (ws : List Text) (v : Vote) (i : ℕ) (items : List Item)
      → contains i (map (λ n. n.agenda_item_id) (named_links u ws v items)) ≡ true
      → links_item v.id i (named_links u ws v items) ≡ true
  unfolding named_links vote_of
  named_links-pair ws v i [] h = absurd (cc h)
  named_links-pair ws v i (j ∷ js) h = elim (Option-cases (named_link u ws v j)) [
    | inl q ↦ rw (named_links, q) (named_links-pair ws v i js (rw (named_links, q) at h))
    | inr (n, q) ↦
        let e : n.vote_id ≡ v.id = sym (ap (vote_of v.id) q) ∙ named_link-vote ws v j in
        elim (Bool-cases (i == n.agenda_item_id)) [
          | inl s ↦ rw (named_links, q) (ground (arith, e, s))
          | inr s ↦
              rw (named_links, q)
                (ground (arith, named_links-pair ws v i js (rw (named_links, q, s) at h)))
        ]
  ]

  default_links-pair :
      (named : List ℕ) (v : Vote) (i : Item) (items : List Item)
      → In i items
      → contains i.id named ≡ false
      → links_item v.id i.id (default_links u named v items) ≡ true
  unfolding default_links
  default_links-pair named v i [] m h = absurd m
  default_links-pair named v i (j ∷ js) (inl q) h =
      let e : contains j.id named ≡ false = subst (λ (k : Item). contains k.id named ≡ false) q h in
      let s : i.id ≡ j.id = ap (λ (k : Item). k.id) q in rw e (ground (arith, s))
  default_links-pair named v i (j ∷ js) (inr m) h = elim (Bool-cases (contains j.id named)) [
    | inl e ↦ rw e (default_links-pair named v i js m h)
    | inr e ↦ rw e (ground (arith, default_links-pair named v i js m h))
  ]

  consent_block-inked : (v : Vote) → is_consent_block u v ≡ true → inked (vote_text u v) ≡ true
  unfolding is_consent_block is_space
  consent_block-inked v h =
      let (p, m, e) = In-of_any (λ p. occurs (codes p) (vote_text u v)) consent_block_phrases h in
      occurs-inked (codes p) (vote_text u v) e (
        All-In (λ q. inked (codes q) ≡ true) p consent_block_phrases
          (refl, (refl, (refl, (refl, tt)))) m)

  consent_links-pair :
      (v : Vote) (i : Item) (items : List Item)
      → is_consent_block u v ≡ true
      → In i items
      → links_item v.id i.id (consent_links u items v) ≡ true
  unfolding consent_links
  consent_links-pair v i items h m =
      let named = named_links u (significant_words u (vote_text u v)) v items in
      let ids = map (λ (n : NewLink). n.agenda_item_id) named in
      elim (Bool-cases (contains i.id ids)) [
        | inl e ↦
            rw
              (
                h,
                consent_block-inked v h,
                links_item-append v.id i.id named (default_links u ids v items),
                named_links-pair (significant_words u (vote_text u v)) v i.id items e,
              )
              refl
        | inr e ↦
            rw
              (
                h,
                consent_block-inked v h,
                links_item-append v.id i.id named (default_links u ids v items),
                default_links-pair ids v i items m e,
              )
              (ground arith)
      ]

  -- Behind the pass, every consent item of the meeting has a row with every vote of its minutes on
  -- the consent block that had no active link.
  pub consent_covers :
      (meeting_id : ℕ) (items : List Item) (votes : List Vote) (links : List Link) (v : Vote)
      (i : Item)
      → In v (unlinked_votes meeting_id is_minutes links votes)
      → is_consent_block u v ≡ true
      → In i (consent_items_of meeting_id items)
      → has_pair v.id i.id (match_consent_block u meeting_id items votes links).links ≡ true
  unfolding match_consent_block
  consent_covers meeting items votes links v i m h k =
      unless_none-pair v.id i.id i (consent_items_of meeting items) links _ k (
        write_votes-pair (consent_links u (consent_items_of meeting items)) v i.id
          (unlinked_votes meeting is_minutes links votes) _ m
          (consent_links-pair v i (consent_items_of meeting items) h k))
