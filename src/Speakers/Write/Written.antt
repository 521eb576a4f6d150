-- ===== src/Speakers/Write/Written.antt =====
-- ai/transcripts/speakers.py: the rows of transcript_speakers behind the speaker stage.
use docket_pub.Prelude.{
  ℕ, ◌*◌, ◌≤◌, ◌↔◌, ◌&&◌, ◌==◌, not, ◌<◌, ◌≡◌, refl, ap, true, false, ◌⊎◌, inl, inr, some, List, [],
  ◌∷◌, Text, arith, ltb, ltb→lt, same_text, has_text, keep, Bool-cases, All, In, All-members,
}
use docket_pub.Guard.Normalize.{normalize}
use docket_pub.Speakers.Types.{SpeakerAssignment, Speaker, RosterMember}
use docket_pub.Speakers.Confidence.{Judged, apply_confidence_rules}
use docket_pub.Speakers.Confidence.Earned.{IsVerified, IsSeated, confidence_earned}
use docket_pub.Speakers.Write.{
  Utterance, cluster_text, ids, member_of, role_of, display_of, written, is_target, resolved,
  write_answer,
}
use docket_pub.Speakers.Write.Reached.{
  IsOnRoster, IsLeft, target-unmanned, written-IsOnRoster, write_assignments-Left,
  write_assignments-manual,
}

below-ltb : (m n : ℕ) → m < n → ltb m n ≡ true
below-ltb m n h = ground (arith, h)

module _ (fold : ℕ → Text) (unit : ℕ) (rounded : ℕ → ℕ) (meeting_id : ℕ)
    (roster : List RosterMember) (labels : List Text) (us : List Utterance)
    (answer : List SpeakerAssignment) where
  abbrev judged : SpeakerAssignment → Judged
  judged a =
      apply_confidence_rules fold unit rounded a (cluster_text a.cluster_label us) (ids roster)

  -- What the assignment says of the speaker: the member that it names, if the roster has it, under
  -- the roster's name, otherwise the name that it gives; its role; and the judged confidence.
  abbrev pub Tells : SpeakerAssignment → Speaker → Type 0
  Tells a s =
      (s.council_member_id ≡ member_of roster a.council_member_id)
      × (s.display_name ≡ display_of roster (member_of roster a.council_member_id) a.display_name)
      × (s.role ≡ some (role_of (member_of roster a.council_member_id) a.role))
      × (s.confidence ≡ some (judged a).confidence)
      × (s.method ≡ some (judged a).method)
      × ((s.needs_review ≡ true) ↔ ((judged a).confidence < 600 * unit))

  -- The row is of the meeting, and says what an assignment of the answer to its cluster, one of the
  -- packet's, says of the speaker; a row that needs no review by one whose quote is found in what the
  -- cluster said, and that names nobody or a member.
  abbrev pub IsAnswered : Speaker → Type 0
  IsAnswered s =
      (a : SpeakerAssignment) × In a answer
      × (has_text a.cluster_label labels ≡ true)
      × (s.meeting_id ≡ meeting_id)
      × (same_text s.cluster_label a.cluster_label ≡ true)
      × Tells a s
      × ((s.needs_review ≡ true)
          ⊎ (IsVerified fold a.method a.evidence_quote
                (normalize fold (cluster_text a.cluster_label us))
              × IsSeated (ids roster) a.council_member_id))

  -- No assignment of the answer is to the row's cluster, or the row is manual or of another meeting.
  abbrev pub IsUnnamed : Speaker → Type 0
  IsUnnamed s =
      All
        (λ a.
          (has_text a.cluster_label labels
            && (s.meeting_id == meeting_id
                && same_text s.cluster_label a.cluster_label
                && not s.is_manual))
          ≡ false)
        answer

  abbrev pub IsOldOrAnswered : List Speaker → Speaker → Type 0
  IsOldOrAnswered old s =
      ((s.is_manual ≡ false) × IsOnRoster roster s × IsAnswered s) ⊎ (In s old × IsUnnamed s)

module _ (fold : ℕ → Text) (unit : ℕ) (rounded : ℕ → ℕ)
    (mono : (m n : ℕ) → m ≤ n → rounded m ≤ rounded n)
    (exact : (n : ℕ) → rounded (n * unit) ≡ n * unit) (positive : 0 < unit) (meeting_id : ℕ)
    (roster : List RosterMember) (labels : List Text) (us : List Utterance)
    (answer : List SpeakerAssignment) where
  abbrev judged_of : SpeakerAssignment → Judged
  judged_of = judged fold unit rounded meeting_id roster labels us answer

  abbrev IsJudged : SpeakerAssignment × Judged → Type 0
  IsJudged (a, j) = In a answer × (has_text a.cluster_label labels ≡ true) × (j ≡ judged_of a)

  abbrev resolved_of : List SpeakerAssignment → List (SpeakerAssignment × Judged)
  resolved_of = resolved fold unit rounded labels us (ids roster)

  resolved-IsJudged :
      (as' : List SpeakerAssignment)
      → ((a : SpeakerAssignment) → In a as' → In a answer)
      → All IsJudged (resolved_of as')
  unfolding resolved
  resolved-IsJudged [] f = tt
  resolved-IsJudged (a ∷ as') f = elim (Bool-cases (has_text a.cluster_label labels)) [
    | inl e ↦
        rw (e, resolved) ((f a (inl refl), e, refl), resolved-IsJudged as' (λ b m. f b (inr m)))
    | inr e ↦ rw (e, resolved) (resolved-IsJudged as' (λ b m. f b (inr m)))
  ]

  IsUnnamed-resolved :
      (s : Speaker) (as' : List SpeakerAssignment)
      → IsLeft unit meeting_id roster (resolved_of as') s
      → IsUnnamed fold unit rounded meeting_id roster labels us as' s
  unfolding resolved is_target
  IsUnnamed-resolved s [] h = tt
  IsUnnamed-resolved s (a ∷ as') h = elim (Bool-cases (has_text a.cluster_label labels)) [
    | inl e ↦ let (q, rest) = rw (e, resolved) at h in rw e (q, IsUnnamed-resolved s as' rest)
    | inr e ↦ rw e (refl, IsUnnamed-resolved s as' (rw (e, resolved) at h))
  ]

  written-Tells :
      (a : SpeakerAssignment) (j : Judged) (s : Speaker)
      → j ≡ judged_of a
      → Tells fold unit rounded meeting_id roster labels us answer a
          (written unit meeting_id roster a j s)
  unfolding written
  written-Tells a j s q =
      let c : j.confidence ≡ (judged_of a).confidence = ap (λ (x : Judged). x.confidence) q in
      let m : j.method ≡ (judged_of a).method = ap (λ (x : Judged). x.method) q in
      (refl, refl, refl, ap some c, ap some m, rw c (ltb→lt _ _, below-ltb _ _))

  written-IsAnswered :
      (a : SpeakerAssignment) (j : Judged) (s : Speaker)
      → IsJudged (a, j)
      → is_target unit meeting_id roster a s ≡ true
      → ((written unit meeting_id roster a j s).is_manual ≡ false)
        × IsOnRoster roster (written unit meeting_id roster a j s)
        × IsAnswered fold unit rounded meeting_id roster labels us answer
            (written unit meeting_id roster a j s)
  unfolding written
  written-IsAnswered a j s (m, known, q) t =
      let (um, of, l) = target-unmanned unit meeting_id roster a s t in
      let earned =
        confidence_earned fold unit rounded mono exact a (cluster_text a.cluster_label us)
          (ids roster) in
      let c : j.confidence ≡ (judged_of a).confidence = ap (λ (x : Judged). x.confidence) q in
      (
        um,
        written-IsOnRoster unit meeting_id roster a j s,
        (
          a,
          m,
          known,
          of,
          l,
          written-Tells a j s q,
          elim earned.1 [
            | inl k ↦ inl (below-ltb j.confidence (600 * unit) (omega (arith, k, c, positive)))
            | inr v ↦ inr v
          ],
        ),
      )

  settled :
      (old ss : List Speaker)
      → All
          (λ s.
            ((s.is_manual ≡ false)
              × IsOnRoster roster s
              × IsAnswered fold unit rounded meeting_id roster labels us answer s)
            ⊎ (In s old × IsLeft unit meeting_id roster (resolved_of answer) s))
          ss
      → All (IsOldOrAnswered fold unit rounded meeting_id roster labels us answer old) ss
  settled old [] h = tt
  settled old (s ∷ ss) (inl w, h) = (inl w, settled old ss h)
  settled old (s ∷ ss) (inr (m, l), h) = (inr (m, IsUnnamed-resolved s answer l), settled old ss h)

  -- After the speaker stage every row of transcript_speakers is one of two. Either it is as it was,
  -- and is manual, of another meeting, or of a cluster to which the answer assigns nobody. Or it is no
  -- manual row, is of the meeting, and has the member, name, role, confidence and method that an
  -- assignment of the answer to its cluster gives it, is of the council only with a member of the
  -- roster, and needs review exactly if the confidence is below 0.6; if it needs none, the quote of
  -- that assignment is found in what the cluster said, and it names nobody or a member of the roster.
  -- The manual rows are as before. It is assumed that rounding to thousandths is monotone and keeps a
  -- number of thousandths.
  pub answer_written :
      (old : List Speaker)
      → let new = (write_answer fold unit rounded meeting_id roster labels us answer old).0 in
        All (IsOldOrAnswered fold unit rounded meeting_id roster labels us answer old) new
        × (keep (λ s. s.is_manual) new ≡ keep (λ s. s.is_manual) old)
  unfolding write_answer
  answer_written old = (
    settled old _ (
        write_assignments-Left unit meeting_id roster _ IsJudged
          (λ a j s g t. written-IsAnswered a j s g t) (λ s. In s old) (resolved_of answer) old 0
          (resolved-IsJudged answer (λ a m. m)) (All-members (λ s. In s old) old (λ s m. m))),
    write_assignments-manual unit meeting_id roster (resolved_of answer) old 0,
  )
