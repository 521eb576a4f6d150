-- ===== src/Discrepancies/Types.antt =====
-- The rows of minutes_discrepancies (migration 035), and the table. Confidences are in thousandths;
-- offsets in the video are whole numbers of some unit, since the code only stores them.
use docket_pub.Prelude.{
  ℕ, Bool, true, false, Option, List, [], ◌∷◌, Text, ◌==◌, if◌then◌else◌, ◌≡◌, ◌≢◌, All, Bool-cases,
  ==_iff, inl, inr,
}

pub data ReviewState : Type 0 where
  proposed approved rejected dismissed_by_model stale : ReviewState

pub data Category : Type 0 where
  vote_outcome omission addition wording sequence speaker : Category

pub data Severity : Type 0 where
  material minor : Severity

pub data MatchKind : Type 0 where
  exact fuzzy missing : MatchKind

pub data Origin : Type 0 where
  aligner model_initiated : Origin

pub record Discrepancy : Type 0 where
  pub id : ℕ
  pub meeting_id : ℕ
  pub agenda_item_id : Option ℕ
  pub category : Category
  pub severity : Severity
  pub title : Text
  pub description : Text
  pub admin_title : Option Text
  pub admin_description : Option Text
  pub transcript_event_id : Option ℕ
  pub minutes_event_id : Option ℕ
  pub transcript_excerpt : Option Text
  pub transcript_start_s : Option ℕ
  pub minutes_excerpt : Option Text
  pub minutes_page : Option ℕ
  pub citation_match : MatchKind
  pub confidence : Option ℕ
  pub origin : Origin
  pub prompt_version : ℕ
  pub review_state : ReviewState
  pub previous_review_state : Option ReviewState
  pub reject_reason : Option Text
  pub reviewed_at : Option ℕ
  pub reviewed_by : Option Text
  pub review_note : Option Text

pub record Table : Type 0 where
  pub rows : List Discrepancy
  pub next_id : ℕ

abbrev pub is_missing : MatchKind → Bool
is_missing missing = true
is_missing _ = false

abbrev pub is_proposed : ReviewState → Bool
is_proposed proposed = true
is_proposed _ = false

abbrev pub is_approved : ReviewState → Bool
is_approved approved = true
is_approved _ = false

-- `UPDATE … WHERE id = k` on the rows.
unfoldable pub update_row : ℕ → (Discrepancy → Discrepancy) → List Discrepancy → List Discrepancy
update_row k f [] = []
update_row k f (d ∷ ds) = (if d.id == k then f d else d) ∷ update_row k f ds

-- A row that a person has approved has a citation.
abbrev pub IsCited : Discrepancy → Type 0
IsCited d = d.review_state ≡ approved → d.citation_match ≢ missing

-- An update that keeps the property of a row keeps it of every row.
pub update_row-All :
    (P : Discrepancy → Type 0) (k : ℕ) (f : Discrepancy → Discrepancy) (ds : List Discrepancy)
    → ((d : Discrepancy) → d.id ≡ k → P d → P (f d))
    → All P ds
    → All P (update_row k f ds)
unfolding update_row
update_row-All P k f [] keeps h = tt
update_row-All P k f (d ∷ ds) keeps h = elim (Bool-cases (d.id == k)) [
  | inl e ↦ rw e (keeps d ((==_iff d.id k).0 e) h.0, update_row-All P k f ds keeps h.1)
  | inr e ↦ rw e (h.0, update_row-All P k f ds keeps h.1)
]
