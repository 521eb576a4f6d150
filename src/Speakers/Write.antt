-- ===== src/Speakers/Write.antt =====
-- ai/transcripts/speakers.py: write_assignments, and how run_speaker_stage comes to its arguments.
mod Reached
pub mod Written
use docket_pub.Prelude.{
  ℕ, suc, ◌+◌, ◌*◌, Bool, true, false, ◌&&◌, not, Option, none, some, List, [], ◌∷◌, ◌++◌, Text,
  ltb, ◌==◌, has_text, same_text, contains, if◌then◌else◌,
}
use docket_pub.Alignment.Types.{stated, nonzero}
use docket_pub.Speakers.Types.{Role, council, unknown, SpeakerAssignment, Speaker, RosterMember}
use docket_pub.Speakers.Confidence.{Judged, apply_confidence_rules}

-- A row of load_speech_segments, as far as the stage reads it here.
pub record Utterance : Type 0 where
  pub text : Text
  pub cluster_label : Option Text

-- cluster_texts.get(label, "")
unfoldable pub cluster_text : Text → List Utterance → Text
cluster_text label [] = []
cluster_text label (u ∷ us) =
    let rest = cluster_text label us in
    elim (stated u.cluster_label) [
      | none ↦ rest
      | some l ↦ if same_text l label then (b' ' ∷ u.text) ++ rest else rest
    ]

abbrev pub ids : List RosterMember → List ℕ
ids [] = []
ids (m ∷ ms) = m.id ∷ ids ms

-- names.get; of two members with one id, the dict keeps the later.
unfoldable pub name_of : List RosterMember → ℕ → Option Text
name_of [] n = none
name_of (m ∷ ms) n = elim (name_of ms n) [
  | some t ↦ some t
  | none ↦ if m.id == n then some m.name else none
]

-- member_id
unfoldable pub member_of : List RosterMember → Option ℕ → Option ℕ
member_of roster none = none
member_of roster (some n) = if contains n (ids roster) then some n else none

abbrev pub is_council : Role → Bool
is_council council = true
is_council _ = false

-- role; only a member of the roster sits on the council.
unfoldable pub role_of : Option ℕ → Role → Role
role_of member role = elim (nonzero member) [
  | some _ ↦ role
  | none ↦ if is_council role then unknown else role
]

unfoldable pub display_of : List RosterMember → Option ℕ → Option Text → Option Text
display_of roster member given = elim (nonzero member) [
  | some n ↦ name_of roster n
  | none ↦ stated given
]

module _ (unit : ℕ) (meeting_id : ℕ) (roster : List RosterMember) where
  -- The SET of the UPDATE.
  unfoldable pub written : SpeakerAssignment → Judged → Speaker → Speaker
  written a j s =
      let member = member_of roster a.council_member_id in
      record s {
        council_member_id = member;
        display_name = display_of roster member a.display_name;
        role = some (role_of member a.role);
        confidence = some j.confidence;
        method = some j.method;
        needs_review = ltb j.confidence (600 * unit);
      }

  -- Its WHERE.
  unfoldable pub is_target : SpeakerAssignment → Speaker → Bool
  is_target a s =
      s.meeting_id == meeting_id && same_text s.cluster_label a.cluster_label && not s.is_manual

  -- One UPDATE on the rows, with the count of the rows that it reaches.
  unfoldable pub write_one : SpeakerAssignment → Judged → List Speaker → List Speaker × ℕ
  write_one a j [] = ([], 0)
  write_one a j (s ∷ ss) =
      let (rest, n) = write_one a j ss in
      if is_target a s then (written a j s ∷ rest, suc n) else (s ∷ rest, n)

  -- The loop of write_assignments over the pairs that are resolved.
  unfoldable pub write_assignments :
      List (SpeakerAssignment × Judged) → List Speaker → (updated : ℕ) → List Speaker × ℕ
  write_assignments [] ss updated = (ss, updated)
  write_assignments ((a, j) ∷ rs) ss updated =
      let (ss', n) = write_one a j ss in write_assignments rs ss' (updated + n)

module _ (fold : ℕ → Text) (unit : ℕ) (rounded : ℕ → ℕ) where
  -- The loop of run_speaker_stage over the model's assignments; `labels` are the clusters of the packet.
  unfoldable pub resolved :
      (labels : List Text)
      → List Utterance
      → (roster_ids : List ℕ) → List SpeakerAssignment
      → List (SpeakerAssignment × Judged)
  resolved labels us roster [] = []
  resolved labels us roster (a ∷ as') =
      let rest = resolved labels us roster as' in
      if has_text a.cluster_label labels
      then (a, apply_confidence_rules fold unit rounded a (cluster_text a.cluster_label us) roster)
        ∷ rest
      else rest

  -- What run_speaker_stage writes to transcript_speakers for an answer that names every cluster.
  unfoldable pub write_answer :
      (meeting_id : ℕ)
      → List RosterMember
      → (labels : List Text) → List Utterance
      → List SpeakerAssignment
      → List Speaker
      → List Speaker × ℕ
  write_answer meeting_id roster labels us answer ss =
      write_assignments unit meeting_id roster (resolved labels us (ids roster) answer) ss 0
