-- ===== src/Transcripts/Claim.antt =====
-- ai/transcripts/pipeline.py: CLAIM_SQL, claim_next and claim_meeting.
pub mod Choice
pub mod Steps
pub mod Backoff
use docket_pub.Prelude.{
  ℕ, ◌+◌, Bool, true, false, ◌&&◌, ◌||◌, not, Option, none, some, List, [], ◌∷◌, Text, codes, ltb,
  leb, ◌==◌, all, keep, if◌then◌else◌,
}
use docket_pub.Transcripts.Types.{
  Status, uploaded, speakers_resolved, events_extracted, SkipReason, no_minutes,
  minutes_unavailable, minutes_changed, transcript_changed, Transcript, Meeting,
}

-- interval '24 hours'
abbrev pub day : ℕ
day = 86_400

abbrev pub attempt_cap : ℕ
attempt_cap = 3

abbrev is_digit : ℕ → Bool
is_digit c = leb b'0' c && leb c b'9'

-- `m.external_id ~ '^[0-9]+$'`, which NULL does not satisfy
pub is_numeric : Option Text → Bool
is_numeric none = false
is_numeric (some []) = false
is_numeric (some (c ∷ cs)) = all is_digit (c ∷ cs)

pub text_eq : Text → Text → Bool
text_eq [] [] = true
text_eq (a ∷ s) (b ∷ t) = a == b && text_eq s t
text_eq _ _ = false

-- A meeting whose transcripts may be claimed at all.
unfoldable pub is_eligible : Meeting → Bool
unfolding is_numeric text_eq
is_eligible m = text_eq m.slug (codes "birmingham") && is_numeric m.external_id && not m.is_hidden

abbrev pub is_some : Option Text → Bool
is_some none = false
is_some (some _) = true

-- The status filter and, at events_extracted, the filter on compare_skipped_reason.
unfoldable pub is_ready : Meeting → Status → Option SkipReason → Bool
is_ready m uploaded reason = true
is_ready m speakers_resolved reason = true
is_ready m events_extracted none = true
is_ready m events_extracted (some minutes_changed) = true
is_ready m events_extracted (some transcript_changed) = true
is_ready m events_extracted (some no_minutes) = is_some m.minutes_url
is_ready m events_extracted (some minutes_unavailable) = is_some m.minutes_url
is_ready m _ reason = false

abbrev pub backoff_over : (now : ℕ) → Option ℕ → Bool
backoff_over now none = true
backoff_over now (some last) = ltb (last + day) now

unfoldable pub is_due : (now : ℕ) → Transcript → Bool
is_due now t = ltb t.stage_attempts attempt_cap && backoff_over now t.last_attempted_at

-- SET of the claiming UPDATE
unfoldable pub stamp : (now : ℕ) → Transcript → Transcript
stamp now t = record t {
  stage_attempts = t.stage_attempts + 1;
  last_attempted_at = some now;
  updated_at = now;
}

-- `UPDATE transcripts SET … WHERE id = …`
unfoldable pub update : ℕ → (Transcript → Transcript) → List Transcript → List Transcript
update k f [] = []
update k f (t ∷ ts) = (if t.id == k then f t else t) ∷ update k f ts

module _ (meetings : ℕ → Meeting) where
  abbrev date : Transcript → ℕ
  date t = (meetings t.meeting_id).meeting_date

  -- ORDER BY m.meeting_date DESC, t.id
  abbrev pub before : Transcript → Transcript → Bool
  before t u = ltb (date u) (date t) || (date t == date u && leb t.id u.id)

  unfoldable pub first : List Transcript → Option Transcript
  first [] = none
  first (t ∷ ts) = elim (first ts) [
    | none ↦ some t
    | some u ↦ if before t u then some t else some u
  ]

  -- The WHERE clause without the attempts and the backoff.
  unfoldable pub is_claimable : Transcript → Bool
  is_claimable t =
      is_eligible (meetings t.meeting_id)
      && is_ready (meetings t.meeting_id) t.status t.compare_skipped_reason

  -- `locked` are the rows that other workers hold, which SKIP LOCKED passes over.
  module _ (locked : ℕ → Bool) (now : ℕ) where
    abbrev pub open_to : Transcript → Bool
    open_to t = is_claimable t && is_due now t && not (locked t.id)

    abbrev pub open_in : ℕ → Transcript → Bool
    open_in meeting t = is_claimable t && t.meeting_id == meeting && not (locked t.id)

    abbrev claim : Option Transcript → List Transcript → Option Transcript × List Transcript
    claim none ts = (none, ts)
    claim (some t) ts = (some (stamp now t), update t.id (stamp now) ts)

    -- The claimed row as RETURNING gives it, and the table behind it.
    unfoldable pub claim_next : List Transcript → Option Transcript × List Transcript
    claim_next ts = claim (first (keep open_to ts)) ts

    -- CLAIM_MEETING_SQL has the meeting's id in place of the attempts and the backoff.
    unfoldable pub claim_meeting : ℕ → List Transcript → Option Transcript × List Transcript
    claim_meeting meeting ts = claim (first (keep (open_in meeting) ts)) ts
