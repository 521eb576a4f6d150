-- ===== src/Votes/Reparse/Settled.antt =====
-- analysis/vote_matcher.py: the links of a meeting behind strict_reparse_meeting.
use docket_pub.Prelude.{
  ℕ, ◌≡◌, refl, ◌∙◌, Bool, true, false, ◌&&◌, not, List, [], ◌∷◌, map, ◌==◌, any, keep, arith,
  Bool-cases, inl, inr, if◌then◌else◌, contains, All, In, All-In, All-of_In, All-of_map, All-map,
  All-append, any-false-In, any-false-All,
}
use docket_pub.Votes.Types.{
  Vote, Link, AssociationType, positional, is_explicit, is_consent_link, is_of_meeting, is_minutes,
}
use docket_pub.Votes.Links.{NewLink, inserted, updated, same_pair, on_conflict, upsert_link}
use docket_pub.Votes.Links.Shield.{manual, map-manual, upsert_link-manual}
use docket_pub.Votes.Reparse.{
  is_open, is_promoted, promoted, is_pulled, deactivated, is_remaining, settled, is_late_explicit,
  votes_without, insert_votes, insert_items, strict_reparse, has_provisional_links,
}

abbrev pub is_positional : AssociationType → Bool
is_positional positional = true
is_positional _ = false

module _ (meeting_id : ℕ) (votes : List Vote) (targets : List ℕ) where
  -- Whether a link waits for its confirmation.
  abbrev waits : Link → Bool
  waits l = is_open meeting_id votes l && l.is_active && l.provisional

  -- What the first UPDATE leaves of a link, and what the first three do.
  abbrev AfterFirst : Link → Type 0
  AfterFirst l =
      ((waits l && is_consent_link l.association_type && contains l.agenda_item_id targets) ≡ false)
      × (is_positional l.association_type ≡ false)

  abbrev AfterThird : Link → Type 0
  AfterThird l = (waits l && not (is_explicit l.association_type)) ≡ false

  first_update :
      (l : Link)
      → is_positional l.association_type ≡ false
      → AfterFirst (
          if is_promoted meeting_id votes targets l then promoted meeting_id votes targets l else l)
  unfolding is_promoted promoted is_open
  first_update l h = ground (arith, h)

  second_update :
      (links : List Link) (l : Link)
      → AfterFirst l
      → AfterFirst (
          if is_pulled meeting_id votes targets links l
          then deactivated meeting_id votes targets l
          else l)
  unfolding is_open
  second_update links l h = ground (arith, h)

  third_update :
      (l : Link)
      → AfterFirst l
      → AfterThird (
          if is_remaining meeting_id votes targets l then settled meeting_id votes targets l else l)
  unfolding is_remaining is_open
  third_update l h = ground (arith, h)

  -- No link to the item of one of these votes waits.
  abbrev Fresh : (item : ℕ) → List Vote → Link → Type 0
  Fresh item vs l =
      (any (λ v. v.id == l.vote_id) vs && (l.agenda_item_id == item && l.provisional)) ≡ false

  abbrev Inserting : (item : ℕ) → List Vote → Link → Type 0
  Inserting item vs l = AfterThird l × Fresh item vs l

  conflict-Inserting :
      (n : NewLink) (v : Vote) (vs : List Vote) (item : ℕ) (l : Link)
      → n.vote_id ≡ v.id
      → n.agenda_item_id ≡ item
      → Inserting item (v ∷ vs) l
      → Inserting item vs (on_conflict n l)
  unfolding on_conflict updated same_pair is_open
  conflict-Inserting n v vs item l e f h = elim (Bool-cases (same_pair n l && not l.is_manual)) [
    | inl q ↦
        let p : l.provisional ≡ false = ground (arith, e, f, h.1, q) in
        rw (q, on_conflict) (ground (arith, p), ground (arith, p))
    | inr q ↦ rw (q, on_conflict) (h.0, ground (arith, h.1))
  ]

  upsert_link-Inserting :
      (n : NewLink) (v : Vote) (vs : List Vote) (item : ℕ)
      → n.vote_id ≡ v.id
      → n.agenda_item_id ≡ item
      → n.provisional ≡ false
      → (links : List Link) → All (Inserting item (v ∷ vs)) links
      → All (Inserting item vs) (upsert_link n links)
  unfolding upsert_link inserted is_open
  upsert_link-Inserting n v vs item e f g links h = elim (Bool-cases (any (same_pair n) links)) [
    | inl q ↦
        rw (q, upsert_link)
          (All-of_map (Inserting item (v ∷ vs)) (Inserting item vs) (on_conflict n)
            (λ l k. conflict-Inserting n v vs item l e f k) links h)
    | inr q ↦
        rw (q, upsert_link)
          (All-append (Inserting item vs) links _
            (All-map (Inserting item (v ∷ vs)) (Inserting item vs) links
              (λ l k. (k.0, ground (arith, k.1))) h)
            ((ground (arith, g), ground (arith, g)), tt))
  ]

  insert_votes-AfterThird :
      (is_block : Vote → Bool) (item : ℕ) (vs : List Vote) (links : List Link)
      → All (Inserting item vs) links
      → All AfterThird (insert_votes meeting_id votes targets is_block item vs links)
  unfolding insert_votes
  insert_votes-AfterThird is_block item [] links h =
      All-map (Inserting item []) AfterThird links (λ l k. k.0) h
  insert_votes-AfterThird is_block item (v ∷ vs) links h = elim (Bool-cases (is_block v)) [
    | inl q ↦ rw q (
        insert_votes-AfterThird is_block item vs _
          (upsert_link-Inserting _ v vs item refl refl refl links h))
    | inr q ↦ rw q (
        insert_votes-AfterThird is_block item vs links (
          All-map (Inserting item (v ∷ vs)) (Inserting item vs) links
            (λ l k. (k.0, ground (arith, k.1))) h))
  ]

  abbrev is_without : (item : ℕ) → List Link → Vote → Bool
  is_without item links v =
      v.meeting_id == meeting_id
      && is_minutes v.source
      && not (any (λ k. k.vote_id == v.id && k.agenda_item_id == item) links)

  no_link :
      (item : ℕ) (links : List Link) (v : Vote)
      → is_without item links v ≡ true
      → any (λ k. k.vote_id == v.id && k.agenda_item_id == item) links ≡ false
  no_link item links v h = ground (arith, h)

  unlinked :
      (item : ℕ) (links : List Link) (l : Link)
      → In l links
      → (vs : List Vote) → Fresh item (keep (is_without item links) vs) l
  unlinked item links l m [] = refl
  unlinked item links l m (v ∷ vs) = elim (Bool-cases (is_without item links v)) [
    | inl q ↦
        let z =
          any-false-In (λ k. k.vote_id == v.id && k.agenda_item_id == item) l links
            (no_link item links v q) m in
        rw q (ground (arith, z, unlinked item links l m vs))
    | inr q ↦ rw q (unlinked item links l m vs)
  ]

  insert_items-AfterThird :
      (is_block : Vote → Bool) (items : List ℕ) (links : List Link)
      → All AfterThird links
      → All AfterThird (insert_items meeting_id votes targets is_block items links)
  unfolding insert_items votes_without
  insert_items-AfterThird is_block [] links h = h
  insert_items-AfterThird is_block (item ∷ items) links h =
      insert_items-AfterThird is_block items _ (
        insert_votes-AfterThird is_block item _ links (
          All-of_In (Inserting item (votes_without meeting_id votes targets item links)) links
            (λ l m. (All-In AfterThird l links h m, unlinked item links l m votes))))

  abbrev Confirmed : Link → Type 0
  Confirmed l =
      (is_of_meeting meeting_id votes l && l.provisional && l.is_active && not l.is_manual) ≡ false

  fifth_update :
      (l : Link)
      → AfterThird l
      → Confirmed (
          if is_late_explicit meeting_id votes targets l
          then settled meeting_id votes targets l
          else l)
  unfolding is_late_explicit is_open is_of_meeting
  fifth_update l h = ground (arith, h)

  -- After a strict re-parse the meeting has no provisional link left that is active and not locked,
  -- whatever the enumerated list names: has_provisional_links is false of the links as they are then.
  -- The rows come in with no positional link, which nothing writes.
  pub reparse_settles :
      (is_consent_block : Vote → Bool) (links : List Link)
      → All (λ l. is_positional l.association_type ≡ false) links
      → has_provisional_links meeting_id votes
          (strict_reparse meeting_id votes targets is_consent_block links).links
        ≡ false
  unfolding has_provisional_links strict_reparse
  reparse_settles is_block links h = any-false-All _ _ (
      All-of_map AfterThird Confirmed _ fifth_update _ (
        insert_items-AfterThird is_block targets _ (
          All-of_map AfterFirst AfterThird _ third_update _ (
            All-of_map AfterFirst AfterFirst _ (second_update _) _ (
              All-of_map (λ l. is_positional l.association_type ≡ false) AfterFirst _ first_update
                links h)))))

  insert_votes-manual :
      (is_block : Vote → Bool) (item : ℕ) (vs : List Vote) (links : List Link)
      → manual (insert_votes meeting_id votes targets is_block item vs links) ≡ manual links
  unfolding insert_votes
  insert_votes-manual is_block item [] links = refl
  insert_votes-manual is_block item (v ∷ vs) links = elim (Bool-cases (is_block v)) [
    | inl q ↦ rw q (insert_votes-manual is_block item vs _ ∙ upsert_link-manual _ links)
    | inr q ↦ rw q (insert_votes-manual is_block item vs links)
  ]

  insert_items-manual :
      (is_block : Vote → Bool) (items : List ℕ) (links : List Link)
      → manual (insert_items meeting_id votes targets is_block items links) ≡ manual links
  unfolding insert_items
  insert_items-manual is_block [] links = refl
  insert_items-manual is_block (item ∷ items) links =
      insert_items-manual is_block items _ ∙ insert_votes-manual is_block item _ links

  is_promoted_open :
      (l : Link) → is_promoted meeting_id votes targets l ≡ true → l.is_manual ≡ false
  unfolding is_promoted is_open
  is_promoted_open l h = ground (arith, h)

  is_pulled_open :
      (links : List Link) (l : Link)
      → is_pulled meeting_id votes targets links l ≡ true
      → l.is_manual ≡ false
  unfolding is_pulled is_open
  is_pulled_open links l h = ground (arith, h)

  is_remaining_open :
      (l : Link) → is_remaining meeting_id votes targets l ≡ true → l.is_manual ≡ false
  unfolding is_remaining is_open
  is_remaining_open l h = ground (arith, h)

  is_late_explicit_open :
      (l : Link) → is_late_explicit meeting_id votes targets l ≡ true → l.is_manual ≡ false
  unfolding is_late_explicit is_open
  is_late_explicit_open l h = ground (arith, h)

  pub strict_reparse-manual :
      (is_block : Vote → Bool) (links : List Link)
      → manual (strict_reparse meeting_id votes targets is_block links).links ≡ manual links
  unfolding strict_reparse promoted
  strict_reparse-manual is_block links =
      let f1 = λ (l : Link).
        if is_promoted meeting_id votes targets l then promoted meeting_id votes targets l else l in
      let f2 = λ (l : Link).
        if is_pulled meeting_id votes targets (map f1 links) l
        then deactivated meeting_id votes targets l
        else l in
      let f3 = λ (l : Link).
        if is_remaining meeting_id votes targets l then settled meeting_id votes targets l else l in
      let links3 = map f3 (map f2 (map f1 links)) in
      map-manual (is_late_explicit meeting_id votes targets) (settled meeting_id votes targets)
        is_late_explicit_open (λ l. refl)
        (insert_items meeting_id votes targets is_block targets links3)
      ∙ (insert_items-manual is_block targets links3
          ∙ (map-manual (is_remaining meeting_id votes targets) (settled meeting_id votes targets)
                is_remaining_open (λ l. refl) (map f2 (map f1 links))
              ∙ (map-manual (is_pulled meeting_id votes targets (map f1 links))
                    (deactivated meeting_id votes targets) (is_pulled_open (map f1 links))
                    (λ l. refl) (map f1 links)
                  ∙ map-manual (is_promoted meeting_id votes targets)
                      (promoted meeting_id votes targets) is_promoted_open (λ l. refl) links)))
