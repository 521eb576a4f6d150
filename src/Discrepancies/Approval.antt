-- ===== src/Discrepancies/Approval.antt =====
-- services/discrepancies.py: approve and reject.
pub mod Edit
pub mod Guards
use docket_pub.Prelude.{
  ℕ, Bool, ◌&&◌, not, Option, none, some, List, [], ◌∷◌, Text, ◌==◌, find?, if◌then◌else◌,
}
use docket_pub.Discrepancies.Types.{
  ReviewState, approved, rejected, MatchKind, Discrepancy, is_missing, is_proposed, update_row,
}
use docket_pub.Discrepancies.Citations.{strip}

-- The exceptions: LookupError, the two messages of DiscrepancyStateError, the messages of
-- CitationNotFound and the ValueError of reject.
pub data ReviewError : Type 0 where
  lookup_error needs_citation reason_required row_not_proposed : ReviewError
  not_proposed : ReviewState → ReviewError
  transcript_excerpt_required no_transcript transcript_excerpt_not_found : ReviewError
  minutes_excerpt_required minutes_excerpt_not_found cites_neither_side : ReviewError

pub data Result (A : Type 0) : Type 0 where
  ok : A → Result A
  err : ReviewError → Result A

infixl 5 ◌>>=◌
abbrev pub ◌>>=◌ : {A B : Type 0} → Result A → (A → Result B) → Result B
ok a >>= f = f a
err e >>= f = err e

-- (s or "").strip() or None
unfoldable pub given : Option Text → Option Text
unfolding strip
given none = none
given (some s) = elim (strip s) [ [] ↦ none | c ∷ cs ↦ some (c ∷ cs) ]

-- The `updates` of approve: what edit_and_approve adds to the statement. A column that is not in the
-- dict is none.
pub record Updates : Type 0 where
  pub admin : Option (Option Text × Option Text)
  pub transcript : Option (Text × Option ℕ)
  pub minutes : Option (Text × ℕ)
  pub match_kind : Option MatchKind

abbrev pub no_updates : Updates
no_updates = record { admin = none; transcript = none; minutes = none; match_kind = none }

abbrev set_admin : Option (Option Text × Option Text) → Discrepancy → Discrepancy
set_admin none d = d
set_admin (some (t, s)) d = record d { admin_title = t; admin_description = s }

abbrev set_transcript : Option (Text × Option ℕ) → Discrepancy → Discrepancy
set_transcript none d = d
set_transcript (some (t, s)) d = record d { transcript_excerpt = some t; transcript_start_s = s }

abbrev set_minutes : Option (Text × ℕ) → Discrepancy → Discrepancy
set_minutes none d = d
set_minutes (some (t, p)) d = record d { minutes_excerpt = some t; minutes_page = some p }

-- COALESCE
abbrev pub coalesce : {A : Type 0} → Option A → A → A
coalesce none a = a
coalesce (some b) a = b

abbrev coalesce_option : {A : Type 0} → Option A → Option A → Option A
coalesce_option none a = a
coalesce_option (some b) a = some b

-- SET of the guarded UPDATE.
unfoldable pub approve_row :
    (now : ℕ) (actor : Text) (noted : Option Text) → Updates → Discrepancy → Discrepancy
approve_row now actor noted u d =
    let edited = set_minutes u.minutes (set_transcript u.transcript (set_admin u.admin d)) in
    record edited {
      review_state = approved;
      reviewed_at = some now;
      reviewed_by = some actor;
      review_note = coalesce_option noted d.review_note;
      citation_match = coalesce u.match_kind d.citation_match;
    }

-- WHERE of the guarded UPDATE, less the id.
unfoldable pub may_approve : Updates → Discrepancy → Bool
may_approve u d =
    is_proposed d.review_state && not (is_missing (coalesce u.match_kind d.citation_match))

-- The whole UPDATE on a row with the id.
abbrev pub approve_guarded :
    (now : ℕ) (actor : Text) (noted : Option Text) → Updates → Discrepancy → Discrepancy
approve_guarded now actor noted u d = if may_approve u d then approve_row now actor noted u d else d

-- Ids are unique, so the statement meets at most one row.
abbrev pub row_of : ℕ → List Discrepancy → Option Discrepancy
row_of k ds = find? (λ d. d.id == k) ds

abbrev refusal : Option Discrepancy → ReviewError
refusal none = lookup_error
refusal (some d) =
    if is_missing d.citation_match then needs_citation else not_proposed d.review_state

abbrev approve_found :
    (now : ℕ) (actor : Text) (noted : Option Text)
    → Updates
    → List Discrepancy
    → Option Discrepancy
    → Result (List Discrepancy)
approve_found now actor noted u ds none = err (refusal none)
approve_found now actor noted u ds (some d) =
    if may_approve u d
    then ok (update_row d.id (approve_guarded now actor noted u) ds)
    else err (refusal (some d))

unfoldable pub approve :
    (now k : ℕ) (actor : Text) (noted : Option Text)
    → Updates
    → List Discrepancy
    → Result (List Discrepancy)
unfolding given
approve now k actor noted u ds = approve_found now actor (given noted) u ds (row_of k ds)

unfoldable pub reject_row : (now : ℕ) (actor reason : Text) → Discrepancy → Discrepancy
reject_row now actor reason d = record d {
  review_state = rejected;
  reject_reason = some reason;
  reviewed_at = some now;
  reviewed_by = some actor;
}

abbrev pub reject_guarded : (now : ℕ) (actor reason : Text) → Discrepancy → Discrepancy
reject_guarded now actor reason d =
    if is_proposed d.review_state then reject_row now actor reason d else d

abbrev reject_found :
    (now : ℕ) (actor reason : Text)
    → List Discrepancy
    → Option Discrepancy
    → Result (List Discrepancy)
reject_found now actor reason ds none = err row_not_proposed
reject_found now actor reason ds (some d) =
    if is_proposed d.review_state
    then ok (update_row d.id (reject_guarded now actor reason) ds)
    else err row_not_proposed

abbrev reject_with :
    (now k : ℕ) (actor : Text) → List Discrepancy → Option Text → Result (List Discrepancy)
reject_with now k actor ds none = err reason_required
reject_with now k actor ds (some reason) = reject_found now actor reason ds (row_of k ds)

-- The refusal of reject has one message, whether the row is missing or in another state.
unfoldable pub reject :
    (now k : ℕ) (actor reason : Text) → List Discrepancy → Result (List Discrepancy)
unfolding given
reject now k actor reason ds = reject_with now k actor ds (given (some reason))
