-- ===== src/Votes/Reparse.antt =====
-- analysis/vote_matcher.py: strict_reparse_meeting on the rows of vote_agenda_items, from the items
-- that the enumerated list of the minutes names; and has_provisional_links.
pub mod Settled
pub mod Enumerated
use docket_pub.Prelude.{
  ℕ, ◌+◌, Bool, false, ◌&&◌, not, none, some, List, [], ◌∷◌, map, ◌==◌, any, keep, length, contains,
  if◌then◌else◌,
}
use docket_pub.Votes.Types.{
  Vote, Link, consent_named, consent_enumerated, is_minutes, is_explicit, is_consent_link,
  is_of_meeting,
}
use docket_pub.Votes.Links.{NewLink, upsert_link}

-- The rows behind the re-parse, with the counts it returns.
pub record Reparsed : Type 0 where
  pub links : List Link
  pub promotions : ℕ
  pub deactivations : ℕ

module _ (meeting_id : ℕ) (votes : List Vote) where
  -- A link of the meeting that no one has locked.
  unfoldable pub is_open : Link → Bool
  is_open l = is_of_meeting meeting_id votes l && not l.is_manual

  -- An UPDATE, with cur.rowcount.
  abbrev update_where : (Link → Bool) → (Link → Link) → List Link → List Link × ℕ
  update_where p f links = (map (λ l. if p l then f l else l) links, length (keep p links))

  module _ (target_item_ids : List ℕ) where
    unfoldable pub is_promoted : Link → Bool
    is_promoted l =
        is_open l && contains l.agenda_item_id target_item_ids && is_consent_link l.association_type

    unfoldable pub promoted : Link → Link
    promoted l = record l {
      provisional = false;
      match_confidence = 100;
      match_method = some consent_enumerated;
      association_type = consent_named;
    }

    -- The EXISTS: the minutes record a vote of its own on the item.
    unfoldable pub has_own_vote : List Link → Link → Bool
    has_own_vote links l =
        any
          (λ sep.
            sep.agenda_item_id == l.agenda_item_id
            && not (sep.vote_id == l.vote_id)
            && any (λ v. v.id == sep.vote_id && v.meeting_id == meeting_id && is_minutes v.source)
                votes
            && is_explicit sep.association_type
            && sep.is_active)
          links

    unfoldable pub is_pulled : List Link → Link → Bool
    is_pulled links l =
        is_open l
        && l.is_active
        && is_consent_link l.association_type
        && not (contains l.agenda_item_id target_item_ids)
        && has_own_vote links l

    abbrev pub deactivated : Link → Link
    deactivated l = record l { is_active = false }

    unfoldable pub is_remaining : Link → Bool
    is_remaining l =
        is_open l
        && l.is_active
        && l.provisional
        && is_consent_link l.association_type
        && not (contains l.agenda_item_id target_item_ids)

    abbrev pub settled : Link → Link
    settled l = record l { provisional = false }

    unfoldable pub is_late_explicit : Link → Bool
    is_late_explicit l = is_open l && is_explicit l.association_type && l.provisional

    abbrev enumerated_link : (vote item : ℕ) → NewLink
    enumerated_link vote item = record {
      vote_id = vote;
      agenda_item_id = item;
      association_type = consent_named;
      match_method = consent_enumerated;
      match_confidence = 100;
      excerpt_context = none;
      provisional = false;
    }

    -- The votes of the minutes that have no link to the item, active or not.
    unfoldable pub votes_without : (item : ℕ) → List Link → List Vote
    votes_without item links =
        keep
          (λ v.
            v.meeting_id == meeting_id
            && is_minutes v.source
            && not (any (λ l. l.vote_id == v.id && l.agenda_item_id == item) links))
          votes

    -- The loops that insert; `is_consent_block` is _classify_vote.
    unfoldable pub insert_votes :
        (is_consent_block : Vote → Bool) → (item : ℕ) → List Vote → List Link → List Link
    insert_votes is_block item [] links = links
    insert_votes is_block item (v ∷ vs) links =
        insert_votes is_block item vs
          (if is_block v then upsert_link (enumerated_link v.id item) links else links)

    unfoldable pub insert_items : (is_consent_block : Vote → Bool) → List ℕ → List Link → List Link
    insert_items is_block [] links = links
    insert_items is_block (item ∷ items) links =
        insert_items is_block items (insert_votes is_block item (votes_without item links) links)

    -- The body of strict_reparse_meeting, with the items that the enumerated list resolves to.
    unfoldable pub strict_reparse : (is_consent_block : Vote → Bool) → List Link → Reparsed
    strict_reparse is_block links =
        let (links1, n) = update_where is_promoted promoted links in
        let (links2, d) = update_where (is_pulled links1) deactivated links1 in
        let (links3, r) = update_where is_remaining settled links2 in
        let links4 = insert_items is_block target_item_ids links3 in
        let (links5, _) = update_where is_late_explicit settled links4 in
        record { links = links5; promotions = n + r; deactivations = d }

  unfoldable pub has_provisional_links : List Link → Bool
  has_provisional_links links =
      any (λ l. is_of_meeting meeting_id votes l && l.provisional && l.is_active && not l.is_manual)
        links
