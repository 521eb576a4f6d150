-- ===== src/Transcripts/Claim/Choice.antt =====
-- ai/transcripts/pipeline.py: which row CLAIM_SQL takes.
use docket_pub.Prelude.{
  ℕ, ◌≡◌, refl, Bool, true, false, Option, none, some, List, [], ◌∷◌, arith, All, In, In-keep,
  All-keep, All-map, keep, inl, inr, Bool-cases, if◌then◌else◌,
}
use docket_pub.Transcripts.Types.{Transcript, Meeting}
use docket_pub.Transcripts.Claim.{first, before, stamp, open_to, claim, claim_next}

module _ (meetings : ℕ → Meeting) where
  before_refl : (t : Transcript) → before meetings t t ≡ true
  before_refl t = ground arith

  before_total : (t u : Transcript) → before meetings t u ≡ false → before meetings u t ≡ true
  before_total t u h = ground arith

  before_trans :
      (t u v : Transcript)
      → before meetings t u ≡ true
      → before meetings u v ≡ true
      → before meetings t v ≡ true
  before_trans t u v h k = ground arith

  abbrev IsFirst : List Transcript → Option Transcript → Type 0
  IsFirst ts none = ts ≡ []
  IsFirst ts (some t) = In t ts × All (λ u. before meetings t u ≡ true) ts

  first-IsFirst : (ts : List Transcript) → IsFirst ts (first meetings ts)
  unfolding first
  first-IsFirst [] = refl
  first-IsFirst (t ∷ ts) = step (first meetings ts) (first-IsFirst ts)
    where
      step :
          (o : Option Transcript)
          → IsFirst ts o
          → IsFirst
              (t ∷ ts)
              (elim o [ none ↦ some t | some u ↦ if before meetings t u then some t else some u ])
      step none h = rw h (inl refl, (before_refl t, tt))
      step (some u) h = elim (Bool-cases (before meetings t u)) [
        | inl e ↦ rw e (
          inl refl,
          (
            before_refl t,
            All-map (λ v. before meetings u v ≡ true) (λ v. before meetings t v ≡ true) ts
                (λ v. before_trans t u v e) h.1,
          ),
        )
        | inr e ↦ rw e (inr h.0, (before_total t u e, h.1))
      ]

  module _ (locked : ℕ → Bool) (now : ℕ) (ts : List Transcript) where
    abbrev pub Chosen : Option Transcript → Type 0
    Chosen none = All (λ u. open_to meetings locked now u ≡ false) ts
    Chosen (some c) =
        (t : Transcript) × In t ts
        × (open_to meetings locked now t ≡ true)
        × All (λ u. open_to meetings locked now u ≡ true → before meetings t u ≡ true) ts
        × (c ≡ stamp now t)

    All-closed :
        (p : Transcript → Bool) (xs : List Transcript) → keep p xs ≡ [] → All (λ u. p u ≡ false) xs
    All-closed p [] h = tt
    All-closed p (x ∷ xs) h = elim (Bool-cases (p x)) [
      | inl e ↦ cc (rw e at h)
      | inr e ↦ (e, All-closed p xs (rw e at h))
    ]

    pub claim_next-Chosen : Chosen (claim_next meetings locked now ts).0
    unfolding claim_next
    claim_next-Chosen = step (first meetings open_rows) (first-IsFirst open_rows)
      where
        open_rows : List Transcript
        open_rows = keep (open_to meetings locked now) ts

        step :
            (o : Option Transcript)
            → IsFirst open_rows o
            → Chosen (claim meetings locked now o ts).0
        step none h = All-closed (open_to meetings locked now) ts h
        step (some t) h =
            let m = In-keep (open_to meetings locked now) t ts h.0 in
            (
              t,
              m.0,
              m.1,
              All-keep (λ u. before meetings t u ≡ true) (open_to meetings locked now) ts h.1,
              refl,
            )
