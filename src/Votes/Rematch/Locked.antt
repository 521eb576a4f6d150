-- ===== src/Votes/Rematch/Locked.antt =====
-- services/vote_rematch.py: the rows that a person has locked, behind a re-match.
use docket_pub.Prelude.{
  ℕ, ◌≡◌, refl, ◌∙◌, Bool, true, false, ◌&&◌, not, List, [], ◌∷◌, any, Bool-cases, inl, inr, arith,
}
use docket_pub.Votes.Types.{Vote, Item, Link}
use docket_pub.Votes.Links.{NewLink, inserted, same_pair}
use docket_pub.Votes.Links.Shield.{manual, map-manual, manual-append, conflict-open}
use docket_pub.Votes.Rematch.{
  Move, near_cue, cue_changed, is_moved, deactivated, revived, upsert_move, upsert_moves, moves_of,
  rematch_near_cue_links,
}

upsert_move-manual : (n : NewLink) (links : List Link) → manual (upsert_move n links) ≡ manual links
unfolding upsert_move revived inserted
upsert_move-manual n links = elim (Bool-cases (any (same_pair n) links)) [
  | inl e ↦
      rw (e, upsert_move)
        (map-manual (λ l. same_pair n l && not l.is_manual) (revived n) (conflict-open n)
          (λ l. refl) links)
  | inr e ↦ rw (e, upsert_move) (manual-append links (inserted n) refl)
]

upsert_moves-manual :
    (ms : List Move) (links : List Link) → manual (upsert_moves ms links) ≡ manual links
unfolding upsert_moves
upsert_moves-manual [] links = refl
upsert_moves-manual (cue_changed t ∷ ms) links = upsert_moves-manual ms links
upsert_moves-manual (near_cue t i c ∷ ms) links =
    upsert_moves-manual ms _ ∙ upsert_move-manual _ links

is_moved_open : (ms : List Move) (l : Link) → is_moved ms l ≡ true → l.is_manual ≡ false
unfolding is_moved
is_moved_open ms l h = ground (arith, h)

rematch-manual :
    (second : ℕ) (in_city : ℕ → Bool) (items : List Item) (votes : List Vote) (dry_run : Bool)
    (links : List Link)
    → manual (rematch_near_cue_links second in_city items votes dry_run links).links ≡ manual links
unfolding rematch_near_cue_links
rematch-manual second in_city items votes true links = refl
rematch-manual second in_city items votes false links =
    let ms = moves_of second in_city items votes links in
    upsert_moves-manual ms _
    ∙ map-manual (is_moved ms) deactivated (is_moved_open ms) (λ l. refl) links
