-- ===== src/Scoring/Floors/Monotone.antt =====
-- ai/floors.py: which way the scores move, and that every rule that applies is honoured.
use docket_pub.Prelude.{
  ℕ, ◌≡◌, Bool, true, false, Option, none, some, List, [], ◌∷◌, arith, inl, inr, Bool-cases, All,
}
use docket_pub.Scoring.Facts.{Facts, Rewrite, Item}
use docket_pub.Scoring.Floors.{
  ScoreField, significance, consent_placement, FloorTrigger, Override, effective_bound, fires,
  significance_rules, consent_rules, apply_score_floors, subject_matter_floors,
  consent_placement_ceilings,
}
use docket_pub.Scoring.Floors.Bounds.{
  best, Meets, Meets-best, best-Meets-All, bounds, floors_eq_best,
}

-- From a score to one that is no worse; from no score to anything.
abbrev pub Moves : ScoreField → Option ℕ → Option ℕ → Type 0
Moves field none after = Unit
Moves field (some s) after = Meets field s after

Meets-self : (field : ScoreField) (s : ℕ) → Meets field s (some s)
Meets-self significance s = omega arith
Meets-self consent_placement s = omega arith

best-Moves : (field : ScoreField) (s : Option ℕ) (bs : List ℕ) → Moves field s (best field s bs)
best-Moves field none bs = tt
best-Moves field (some s) bs = Meets-best field (some s) bs s (Meets-self field s)

module _ (unit : ℕ) (table : List Override) (city : ℕ) (item : Item) (facts : Facts)
    (ai : Rewrite) where
  -- A significance score never falls and a consent placement score never rises, whatever the item,
  -- the facts and the city's overrides.
  pub floors_one_way :
      (word : ℕ → Bool)
      → let out = apply_score_floors unit table city item facts ai word in
        Moves significance ai.significance_score out.final_significance
        × Moves consent_placement ai.consent_placement_score out.final_consent
  floors_one_way word =
      let (sig, consent) = floors_eq_best unit table city item facts ai word in
      (
        rw sig (
            best-Moves significance ai.significance_score (
              bounds unit table city item facts ai significance
                (significance_rules unit table city item facts ai word))),
        rw consent (
            best-Moves consent_placement ai.consent_placement_score (
              bounds unit table city item facts ai consent_placement
                (consent_rules unit table city item facts ai word))),
      )

  -- A rule is honoured by a score: if it applies to the item, the score meets its bound.
  abbrev pub Honours : ScoreField → Option ℕ → FloorTrigger → Type 0
  Honours field score t =
      fires unit table city item facts ai field t ≡ true
      → Meets field (effective_bound unit table city item facts ai t) score

  All-keep-Honours :
      (field : ScoreField) (score : Option ℕ) (ts : List FloorTrigger)
      → All (λ b. Meets field b score) (bounds unit table city item facts ai field ts)
      → All (Honours field score) ts
  All-keep-Honours field score [] h = tt
  All-keep-Honours field score (t ∷ ts) h =
      elim (Bool-cases (fires unit table city item facts ai field t)) [
        | inl e ↦ let h' = rw e at h in ((λ _. h'.0), All-keep-Honours field score ts h'.1)
        | inr e ↦ let h' = rw e at h in ((λ e'. cc (e, e')), All-keep-Honours field score ts h')
      ]

  -- The final scores honour every rule of the tables: where a significance rule applies, its bound
  -- for the city is at most the final significance, and where a consent rule applies the final
  -- consent placement is at most its bound; a score is there whenever some rule of its kind applies.
  pub floors_honoured :
      (word : ℕ → Bool)
      → let out = apply_score_floors unit table city item facts ai word in
        All
          (Honours significance out.final_significance)
          (significance_rules unit table city item facts ai word)
        × All
            (Honours consent_placement out.final_consent)
            (consent_rules unit table city item facts ai word)
  floors_honoured word =
      let (sig, consent) = floors_eq_best unit table city item facts ai word in
      (
        rw sig (All-keep-Honours significance _ _ (best-Meets-All significance _ _)),
        rw consent (All-keep-Honours consent_placement _ _ (best-Meets-All consent_placement _ _)),
      )

  -- No consent rule applies to an item off the consent agenda.
  rules_need_consent :
      (word : ℕ → Bool)
      → item.is_consent ≡ false
      → bounds unit table city item facts ai consent_placement
          (consent_rules unit table city item facts ai word)
        ≡ []
  unfolding fires consent_placement_ceilings subject_matter_floors
  rules_need_consent word h = ground arith

  -- The consent placement of an item that is not on the consent agenda is the model's.
  pub consent_score_kept :
      (word : ℕ → Bool)
      → item.is_consent ≡ false
      → (apply_score_floors unit table city item facts ai word).final_consent
        ≡ ai.consent_placement_score
  consent_score_kept word h =
      let (_, consent) = floors_eq_best unit table city item facts ai word in
      rw (consent, rules_need_consent word h)
