-- ===== src/Speakers/Write/Reached.antt =====
-- ai/transcripts/speakers.py: which rows the UPDATEs of write_assignments reach.
use docket_pub.Prelude.{
  ℕ, ◌+◌, ◌≡◌, ◌≢◌, refl, ap, subst, ◌∙◌, true, false, ◌⊎◌, inl, inr, Option, none, some, List, [],
  ◌∷◌, arith, same_text, keep, contains, if◌then◌else◌, Bool-cases, Option-cases, All, In,
  In-of_contains,
}
use docket_pub.Speakers.Types.{Role, council, SpeakerAssignment, Speaker, RosterMember}
use docket_pub.Speakers.Confidence.{Judged}
use docket_pub.Speakers.Write.{
  ids, member_of, role_of, written, is_target, write_one, write_assignments,
}

member_of-In :
    (roster : List RosterMember) (o : Option ℕ) (n : ℕ)
    → member_of roster o ≡ some n
    → In n (ids roster)
unfolding member_of
member_of-In roster none n h = absurd (cc h)
member_of-In roster (some k) n h = elim (Bool-cases (contains k (ids roster))) [
  | inl e ↦
      let q : k ≡ n = cc (rw (e, member_of) at h) in
      subst (λ (x : ℕ). In x (ids roster)) q (In-of_contains k _ e)
  | inr e ↦ absurd (cc (rw (e, member_of) at h))
]

role_of-none : (role : Role) → role_of none role ≢ council
unfolding role_of
role_of-none role = ground arith

-- A row is not on the council, or is of a member of the roster.
abbrev pub IsOnRoster : List RosterMember → Speaker → Type 0
IsOnRoster roster s =
    (s.role ≢ some council) ⊎ ((n : ℕ) × (s.council_member_id ≡ some n) × In n (ids roster))

module _ (unit meeting_id : ℕ) (roster : List RosterMember) where
  pub written-IsOnRoster :
      (a : SpeakerAssignment) (j : Judged) (s : Speaker)
      → IsOnRoster roster (written unit meeting_id roster a j s)
  unfolding written
  written-IsOnRoster a j s = elim (Option-cases (member_of roster a.council_member_id)) [
    | inl e ↦ inl (λ h. role_of-none a.role (cc (rw e at h)))
    | inr (n, e) ↦ inr (n, e, member_of-In roster a.council_member_id n e)
  ]

  pub target-unmanned :
      (a : SpeakerAssignment) (s : Speaker)
      → is_target unit meeting_id roster a s ≡ true
      → (s.is_manual ≡ false)
        × (s.meeting_id ≡ meeting_id)
        × (same_text s.cluster_label a.cluster_label ≡ true)
  unfolding is_target
  target-unmanned a s h = ground (arith, h)

  -- Behind an UPDATE a row has what the written rows have, or is one that it does not reach.
  write_one-Left :
      (W Q : Speaker → Type 0) (a : SpeakerAssignment) (j : Judged) (ss : List Speaker)
      → ((s : Speaker)
          → is_target unit meeting_id roster a s ≡ true
          → W (written unit meeting_id roster a j s))
      → All Q ss
      → All
          (λ s. W s ⊎ (Q s × (is_target unit meeting_id roster a s ≡ false)))
          (write_one unit meeting_id roster a j ss).0
  unfolding write_one
  write_one-Left W Q a j [] f h = tt
  write_one-Left W Q a j (s ∷ ss) f h = elim (Bool-cases (is_target unit meeting_id roster a s)) [
    | inl e ↦ rw (e, write_one) (inl (f s e), write_one-Left W Q a j ss f h.1)
    | inr e ↦ rw (e, write_one) (inr (h.0, e), write_one-Left W Q a j ss f h.1)
  ]

  write_one-manual :
      (a : SpeakerAssignment) (j : Judged) (ss : List Speaker)
      → keep (λ s. s.is_manual) (write_one unit meeting_id roster a j ss).0
        ≡ keep (λ s. s.is_manual) ss
  unfolding write_one written
  write_one-manual a j [] = refl
  write_one-manual a j (s ∷ ss) = elim (Bool-cases (is_target unit meeting_id roster a s)) [
    | inl e ↦ let m = (target-unmanned a s e).0 in rw (e, write_one, m) (write_one-manual a j ss)
    | inr e ↦
        rw (e, write_one)
          (ap (λ (l : List Speaker). if s.is_manual then s ∷ l else l) (write_one-manual a j ss))
  ]

  -- No pair of the list reaches the row.
  abbrev pub IsLeft : List (SpeakerAssignment × Judged) → Speaker → Type 0
  IsLeft rs s = All (λ r. is_target unit meeting_id roster r.0 s ≡ false) rs

  module _ (W : Speaker → Type 0) (G : SpeakerAssignment × Judged → Type 0)
      (writes : (a : SpeakerAssignment) (j : Judged) (s : Speaker)
        → G (a, j)
        → is_target unit meeting_id roster a s ≡ true
        → W (written unit meeting_id roster a j s)) where
    weaken :
        (Q : Speaker → Type 0) (a : SpeakerAssignment) (j : Judged)
        (rs : List (SpeakerAssignment × Judged)) (ss : List Speaker)
        → All
            (λ s.
              W s ⊎ ((W s ⊎ (Q s × (is_target unit meeting_id roster a s ≡ false))) × IsLeft rs s))
            ss
        → All (λ s. W s ⊎ (Q s × IsLeft ((a, j) ∷ rs) s)) ss
    weaken Q a j rs [] h = tt
    weaken Q a j rs (s ∷ ss) (inl w, h) = (inl w, weaken Q a j rs ss h)
    weaken Q a j rs (s ∷ ss) (inr (inl w, l), h) = (inl w, weaken Q a j rs ss h)
    weaken Q a j rs (s ∷ ss) (inr (inr (q, e), l), h) = (inr (q, (e, l)), weaken Q a j rs ss h)

    unreached :
        (Q : Speaker → Type 0) (ss : List Speaker) → All Q ss → All (λ s. W s ⊎ (Q s × Unit {0})) ss
    unreached Q [] h = tt
    unreached Q (s ∷ ss) h = (inr (h.0, tt), unreached Q ss h.1)

    pub write_assignments-Left :
        (Q : Speaker → Type 0) (rs : List (SpeakerAssignment × Judged)) (ss : List Speaker) (k : ℕ)
        → All G rs
        → All Q ss
        → All (λ s. W s ⊎ (Q s × IsLeft rs s)) (write_assignments unit meeting_id roster rs ss k).0
    unfolding write_assignments
    write_assignments-Left Q [] ss k g h = unreached Q ss h
    write_assignments-Left Q ((a, j) ∷ rs) ss k g h =
        let (ss', n) = write_one unit meeting_id roster a j ss in
        weaken Q a j rs _ (
          write_assignments-Left (λ s. W s ⊎ (Q s × (is_target unit meeting_id roster a s ≡ false)))
            rs ss' (k + n) g.1 (write_one-Left W Q a j ss (λ s t. writes a j s g.0 t) h))

  pub write_assignments-manual :
      (rs : List (SpeakerAssignment × Judged)) (ss : List Speaker) (k : ℕ)
      → keep (λ s. s.is_manual) (write_assignments unit meeting_id roster rs ss k).0
        ≡ keep (λ s. s.is_manual) ss
  unfolding write_assignments
  write_assignments-manual [] ss k = refl
  write_assignments-manual ((a, j) ∷ rs) ss k =
      write_assignments-manual rs _ _ ∙ write_one-manual a j ss
