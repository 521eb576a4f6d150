-- ===== src/Votes/Match.antt =====
-- analysis/vote_matcher.py: what the three passes of the matcher share. Each fetches its votes first,
-- and then writes the links of one vote after the other.
pub mod Timed
pub mod Substantive
pub mod Consent
pub mod Written
pub mod Covered
use docket_pub.Prelude.{ℕ, ◌+◌, ◌&&◌, not, List, [], ◌∷◌, Bool, ◌==◌, keep}
use docket_pub.Votes.Types.{Vote, Link, Source, has_active_link}
use docket_pub.Votes.Links.{NewLink, upsert_link}

-- The rows of vote_agenda_items, and the count that a pass returns.
pub record Matched : Type 0 where
  pub links : List Link
  pub matched : ℕ

-- Calls of _upsert_link, each counted.
unfoldable pub write_links : List NewLink → Matched → Matched
write_links [] m = m
write_links (n ∷ ns) m =
    write_links ns (record { links = upsert_link n m.links; matched = m.matched + 1 })

-- The loop over the votes, with the links that a vote gets.
unfoldable pub write_votes : (Vote → List NewLink) → List Vote → Matched → Matched
write_votes f [] m = m
write_votes f (v ∷ vs) m = write_votes f vs (write_links (f v) m)

-- The votes of the meeting from a source that have no active link.
unfoldable pub unlinked_votes :
    (meeting_id : ℕ) → (is_source : Source → Bool) → List Link → List Vote → List Vote
unlinked_votes meeting is_source links =
    keep (λ v. v.meeting_id == meeting && is_source v.source && not (has_active_link links v))

-- `if not items: return 0`
unfoldable pub unless_none : {A : Type 0} → List A → List Link → Matched → Matched
unless_none [] links m = record { links = links; matched = 0 }
unless_none (_ ∷ _) links m = m
