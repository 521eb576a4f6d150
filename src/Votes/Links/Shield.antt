-- ===== src/Votes/Links/Shield.antt =====
-- analysis/vote_matcher.py: the links that a person has locked.
use docket_pub.Prelude.{
  ◌≡◌, refl, ap, ◌∙◌, Bool, true, false, ◌&&◌, not, List, [], ◌∷◌, ◌++◌, map, any, keep, arith,
  Bool-cases, inl, inr, if◌then◌else◌,
}
use docket_pub.Votes.Types.{Link}
use docket_pub.Votes.Links.{NewLink, inserted, updated, same_pair, on_conflict, upsert_link}

-- The rows that are locked.
abbrev pub manual : List Link → List Link
manual = keep (λ l. l.is_manual)

-- An UPDATE that passes locked rows over, and does not lock any.
pub map-manual :
    (p : Link → Bool) (f : Link → Link)
    → ((l : Link) → p l ≡ true → l.is_manual ≡ false)
    → ((l : Link) → (f l).is_manual ≡ l.is_manual)
    → (links : List Link) → manual (map (λ l. if p l then f l else l) links) ≡ manual links
map-manual p f guard frame [] = refl
map-manual p f guard frame (l ∷ ls) = elim (Bool-cases (p l)) [
  | inl e ↦ let m = guard l e in let n = frame l ∙ m in rw (e, n, m) (map-manual p f guard frame ls)
  | inr e ↦
      rw e
        (ap (λ (r : List Link). if l.is_manual then l ∷ r else r) (map-manual p f guard frame ls))
]

pub manual-append :
    (ls : List Link) (l : Link) → l.is_manual ≡ false → manual (ls ++ l ∷ []) ≡ manual ls
manual-append [] l h = rw h refl
manual-append (k ∷ ls) l h =
    ap (λ (r : List Link). if k.is_manual then k ∷ r else r) (manual-append ls l h)

pub conflict-open :
    (n : NewLink) (l : Link) → (same_pair n l && not l.is_manual) ≡ true → l.is_manual ≡ false
conflict-open n l h = ground (arith, h)

pub upsert_link-manual :
    (n : NewLink) (links : List Link) → manual (upsert_link n links) ≡ manual links
unfolding upsert_link on_conflict updated inserted
upsert_link-manual n links = elim (Bool-cases (any (same_pair n) links)) [
  | inl e ↦
      rw (e, upsert_link)
        (map-manual (λ l. same_pair n l && not l.is_manual) (updated n) (conflict-open n)
          (λ l. refl) links)
  | inr e ↦ rw (e, upsert_link) (manual-append links (inserted n) refl)
]
