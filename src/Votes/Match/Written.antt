-- ===== src/Votes/Match/Written.antt =====
-- analysis/vote_matcher.py: what the writing of links keeps of the rows.
use docket_pub.Prelude.{
  ℕ, ◌≡◌, refl, subst, ==_iff, &&_parts, ◌∙◌, Bool, true, ◌&&◌, ◌||◌, not, inl, inr, List, [], ◌∷◌,
  ◌++◌, map, ◌==◌, any, arith, Bool-cases, All, All-of_map, All-append, In,
}
use docket_pub.Votes.Types.{Vote, Link}
use docket_pub.Votes.Links.{NewLink, inserted, updated, same_pair, on_conflict, upsert_link}
use docket_pub.Votes.Links.Shield.{manual, upsert_link-manual}
use docket_pub.Votes.Match.{Matched, write_links, write_votes, unless_none}

write_links-manual :
    (ns : List NewLink) (m : Matched) → manual (write_links ns m).links ≡ manual m.links
unfolding write_links
write_links-manual [] m = refl
write_links-manual (n ∷ ns) m = write_links-manual ns _ ∙ upsert_link-manual n m.links

pub write_votes-manual :
    (f : Vote → List NewLink) (vs : List Vote) (m : Matched)
    → manual (write_votes f vs m).links ≡ manual m.links
unfolding write_votes
write_votes-manual f [] m = refl
write_votes-manual f (v ∷ vs) m = write_votes-manual f vs _ ∙ write_links-manual (f v) m

-- A property of rows that the calls keep.
module _ (P : Link → Type 0) (Q : NewLink → Type 0) (new : (n : NewLink) → Q n → P (inserted n))
    (old : (n : NewLink) (l : Link) → Q n → P l → P (updated n l)) where
  conflict-All : (n : NewLink) → Q n → (l : Link) → P l → P (on_conflict n l)
  unfolding on_conflict
  conflict-All n q l p = elim (Bool-cases (same_pair n l && not l.is_manual)) [
    | inl e ↦ rw (e, on_conflict) (old n l q p)
    | inr e ↦ rw (e, on_conflict) p
  ]

  upsert_link-All :
      (n : NewLink) (links : List Link) → Q n → All P links → All P (upsert_link n links)
  unfolding upsert_link
  upsert_link-All n links q h = elim (Bool-cases (any (same_pair n) links)) [
    | inl e ↦ rw (e, upsert_link) (All-of_map P P (on_conflict n) (conflict-All n q) links h)
    | inr e ↦ rw (e, upsert_link) (All-append P links _ h (new n q, tt))
  ]

  write_links-All :
      (ns : List NewLink) (m : Matched) → All Q ns → All P m.links → All P (write_links ns m).links
  unfolding write_links
  write_links-All [] m q h = h
  write_links-All (n ∷ ns) m q h = write_links-All ns _ q.1 (upsert_link-All n m.links q.0 h)

  pub write_votes-All :
      (f : Vote → List NewLink)
      → ((v : Vote) → All Q (f v))
      → (vs : List Vote) (m : Matched) → All P m.links
      → All P (write_votes f vs m).links
  unfolding write_votes
  write_votes-All f q [] m h = h
  write_votes-All f q (v ∷ vs) m h = write_votes-All f q vs _ (write_links-All (f v) m (q v) h)

-- Whether a vote has a row with an item.
unfoldable pub has_pair : (vote item : ℕ) → List Link → Bool
has_pair v i links = any (λ l. l.vote_id == v && l.agenda_item_id == i) links

any-append :
    (p : Link → Bool) (ls : List Link) (l : Link) → any p (ls ++ l ∷ []) ≡ (any p ls || p l)
any-append p [] l = ground arith
any-append p (k ∷ ls) l = rw (any-append p ls l) (ground arith)

any-map-same :
    (p : Link → Bool) (f : Link → Link)
    → ((l : Link) → p (f l) ≡ p l)
    → (ls : List Link) → any p (map f ls) ≡ any p ls
any-map-same p f h [] = refl
any-map-same p f h (l ∷ ls) = rw (h l, any-map-same p f h ls) refl

conflict-pair :
    (v i : ℕ) (n : NewLink) (l : Link)
    → ((on_conflict n l).vote_id == v && (on_conflict n l).agenda_item_id == i)
      ≡ (l.vote_id == v && l.agenda_item_id == i)
unfolding on_conflict updated
conflict-pair v i n l = elim (Bool-cases (same_pair n l && not l.is_manual)) [
  | inl e ↦ rw (e, on_conflict) refl
  | inr e ↦ rw (e, on_conflict) refl
]

-- A row stays.
has_pair-kept :
    (v i : ℕ) (n : NewLink) (links : List Link)
    → has_pair v i links ≡ true
    → has_pair v i (upsert_link n links) ≡ true
unfolding has_pair upsert_link
has_pair-kept v i n links h = elim (Bool-cases (any (same_pair n) links)) [
  | inl e ↦
      rw (e, upsert_link)
        (any-map-same (λ l. l.vote_id == v && l.agenda_item_id == i) (on_conflict n)
            (conflict-pair v i n) links
          ∙ h)
  | inr e ↦
      rw (e, upsert_link)
        (any-append (λ l. l.vote_id == v && l.agenda_item_id == i) links (inserted n)
          ∙ ground (arith, h))
]

has_pair-new :
    (n : NewLink) (links : List Link)
    → has_pair n.vote_id n.agenda_item_id (upsert_link n links) ≡ true
unfolding has_pair upsert_link same_pair inserted
has_pair-new n links = elim (Bool-cases (any (same_pair n) links)) [
  | inl e ↦
      rw (e, upsert_link)
        (any-map-same (same_pair n) (on_conflict n) (conflict-pair n.vote_id n.agenda_item_id n)
            links
          ∙ e)
  | inr e ↦ rw (e, upsert_link) (any-append (same_pair n) links (inserted n) ∙ ground arith)
]

has_pair-at :
    (v i : ℕ) (n : NewLink) (links : List Link)
    → (n.vote_id == v && n.agenda_item_id == i) ≡ true
    → has_pair v i (upsert_link n links) ≡ true
has_pair-at v i n links e =
    let parts = &&_parts (n.vote_id == v) (n.agenda_item_id == i) e in
    subst (λ z. has_pair z i (upsert_link n links) ≡ true) ((==_iff n.vote_id v).0 parts.0)
      (subst (λ z. has_pair n.vote_id z (upsert_link n links) ≡ true)
        ((==_iff n.agenda_item_id i).0 parts.1) (has_pair-new n links))

write_links-kept :
    (v i : ℕ) (ns : List NewLink) (m : Matched)
    → has_pair v i m.links ≡ true
    → has_pair v i (write_links ns m).links ≡ true
unfolding write_links
write_links-kept v i [] m h = h
write_links-kept v i (n ∷ ns) m h = write_links-kept v i ns _ (has_pair-kept v i n m.links h)

write_votes-kept :
    (f : Vote → List NewLink) (v i : ℕ) (vs : List Vote) (m : Matched)
    → has_pair v i m.links ≡ true
    → has_pair v i (write_votes f vs m).links ≡ true
unfolding write_votes
write_votes-kept f v i [] m h = h
write_votes-kept f v i (w ∷ vs) m h = write_votes-kept f v i vs _ (write_links-kept v i (f w) m h)

-- Whether a link for the item is among those that are written.
abbrev pub links_item : (vote item : ℕ) → List NewLink → Bool
links_item v i = any (λ n. n.vote_id == v && n.agenda_item_id == i)

pub write_links-pair :
    (v i : ℕ) (ns : List NewLink) (m : Matched)
    → links_item v i ns ≡ true
    → has_pair v i (write_links ns m).links ≡ true
unfolding write_links
write_links-pair v i [] m h = absurd (cc h)
write_links-pair v i (n ∷ ns) m h = elim (Bool-cases (n.vote_id == v && n.agenda_item_id == i)) [
  | inl e ↦ write_links-kept v i ns _ (has_pair-at v i n m.links e)
  | inr e ↦ write_links-pair v i ns _ (rw e at h)
]

pub write_votes-pair :
    (f : Vote → List NewLink) (v : Vote) (i : ℕ) (vs : List Vote) (m : Matched)
    → In v vs
    → links_item v.id i (f v) ≡ true
    → has_pair v.id i (write_votes f vs m).links ≡ true
unfolding write_votes
write_votes-pair f v i [] m h e = absurd h
write_votes-pair f v i (w ∷ vs) m (inl q) e =
    write_votes-kept f v.id i vs _
      (write_links-pair v.id i (f w) m (subst (λ z. links_item v.id i (f z) ≡ true) q e))
write_votes-pair f v i (w ∷ vs) m (inr h) e = write_votes-pair f v i vs _ h e

pub unless_none-manual :
    {A : Type 0} (xs : List A) (links : List Link) (m : Matched)
    → manual m.links ≡ manual links
    → manual (unless_none xs links m).links ≡ manual links
unfolding unless_none
unless_none-manual [] links m h = refl
unless_none-manual (x ∷ xs) links m h = h

pub unless_none-All :
    {A : Type 0} (P : Link → Type 0) (xs : List A) (links : List Link) (m : Matched)
    → All P links
    → All P m.links
    → All P (unless_none xs links m).links
unfolding unless_none
unless_none-All P [] links m h k = h
unless_none-All P (x ∷ xs) links m h k = k

pub unless_none-pair :
    {A : Type 0} (v i : ℕ) (a : A) (xs : List A) (links : List Link) (m : Matched)
    → In a xs
    → has_pair v i m.links ≡ true
    → has_pair v i (unless_none xs links m).links ≡ true
unfolding unless_none
unless_none-pair v i a [] links m k h = absurd k
unless_none-pair v i a (x ∷ xs) links m k h = h
