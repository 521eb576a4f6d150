-- ===== src/Scoring/Floors/Bounds.antt =====
-- ai/floors.py: the running score of a loop against the best of the bounds that apply.
use docket_pub.Prelude.{
  ℕ, ◌≡◌, refl, Bool, true, false, Option, none, some, List, [], ◌∷◌, map, keep, ltb, arith, inl,
  inr, Bool-cases, All, ◌≤◌,
}
use docket_pub.Scoring.Facts.{Facts, Rewrite, Item}
use docket_pub.Scoring.Floors.{
  ScoreField, significance, consent_placement, FloorTrigger, Override, Fired, effective_bound,
  fires, apply_trigger, apply_triggers, significance_rules, consent_rules, apply_score_floors,
}

-- The larger of two scores for a floor, the smaller for a ceiling; a missing score gives way.
abbrev pub pick : ScoreField → Option ℕ → ℕ → ℕ
pick field none b = b
pick significance (some s) b = elim (ltb s b) [ true ↦ b | false ↦ s ]
pick consent_placement (some s) b = elim (ltb b s) [ true ↦ b | false ↦ s ]

-- The best of a score and a list of bounds.
abbrev pub best : ScoreField → Option ℕ → List ℕ → Option ℕ
best field s [] = s
best field s (b ∷ bs) = best field (some (pick field s b)) bs

-- A score on the right side of a bound.
abbrev pub Meets : ScoreField → ℕ → Option ℕ → Type 0
Meets field b none = ⊥
Meets significance b (some s) = b ≤ s
Meets consent_placement b (some s) = s ≤ b

pub Meets-pick_new :
    (field : ScoreField) (s : Option ℕ) (b : ℕ) → Meets field b (some (pick field s b))
Meets-pick_new significance none b = omega arith
Meets-pick_new significance (some s) b = ground arith
Meets-pick_new consent_placement none b = omega arith
Meets-pick_new consent_placement (some s) b = ground arith

pub Meets-pick_old :
    (field : ScoreField) (s : Option ℕ) (b c : ℕ)
    → Meets field c s
    → Meets field c (some (pick field s b))
Meets-pick_old significance (some s) b c h = ground arith
Meets-pick_old consent_placement (some s) b c h = ground arith
Meets-pick_old significance none b c h = absurd h
Meets-pick_old consent_placement none b c h = absurd h

pub Meets-best :
    (field : ScoreField) (s : Option ℕ) (bs : List ℕ) (c : ℕ)
    → Meets field c s
    → Meets field c (best field s bs)
Meets-best field s [] c h = h
Meets-best field s (b ∷ bs) c h =
    Meets-best field (some (pick field s b)) bs c (Meets-pick_old field s b c h)

pub best-Meets-All :
    (field : ScoreField) (s : Option ℕ) (bs : List ℕ)
    → All (λ b. Meets field b (best field s bs)) bs
best-Meets-All field s [] = tt
best-Meets-All field s (b ∷ bs) = (
  Meets-best field (some (pick field s b)) bs b (Meets-pick_new field s b),
  best-Meets-All field (some (pick field s b)) bs,
)

module _ (unit : ℕ) (table : List Override) (city : ℕ) (item : Item) (facts : Facts)
    (ai : Rewrite) where
  abbrev bound_of : FloorTrigger → ℕ
  bound_of = effective_bound unit table city item facts ai

  -- The bounds of the rules that apply to the item.
  abbrev pub bounds : ScoreField → List FloorTrigger → List ℕ
  bounds field ts = map bound_of (keep (fires unit table city item facts ai field) ts)

  step-eq-pick :
      (field : ScoreField) (t : FloorTrigger) (s : Option ℕ) (fired : List Fired)
      → (apply_trigger unit table city item facts ai field t (s, fired)).0
        ≡ best field s (bounds field (t ∷ []))
  unfolding apply_trigger
  step-eq-pick significance t none fired = ground arith
  step-eq-pick significance t (some s) fired = ground arith
  step-eq-pick consent_placement t none fired = ground arith
  step-eq-pick consent_placement t (some s) fired = ground arith

  bounds-cons :
      (field : ScoreField) (t : FloorTrigger) (ts : List FloorTrigger) (s : Option ℕ)
      → best field s (bounds field (t ∷ ts))
        ≡ best field (best field s (bounds field (t ∷ []))) (bounds field ts)
  bounds-cons field t ts s = elim (Bool-cases (fires unit table city item facts ai field t)) [
    | inl h ↦ rw h
    | inr h ↦ rw h
  ]

  pub apply_triggers-eq-best :
      (field : ScoreField) (ts : List FloorTrigger) (s : Option ℕ) (fired : List Fired)
      → (apply_triggers unit table city item facts ai field ts (s, fired)).0
        ≡ best field s (bounds field ts)
  unfolding apply_triggers
  apply_triggers-eq-best field [] s fired = refl
  apply_triggers-eq-best field (t ∷ ts) s fired =
      let after = apply_trigger unit table city item facts ai field t (s, fired) in
      rw bounds-cons
        (rw (← step-eq-pick field t s fired) (apply_triggers-eq-best field ts after.0 after.1))

  -- The final significance is the largest of the model's score and the bounds, as they stand for the
  -- city, of the significance rules that apply to the item; the final consent placement is the
  -- smallest of the model's score and the bounds of the consent rules that apply.
  pub floors_eq_best :
      (word : ℕ → Bool)
      → let out = apply_score_floors unit table city item facts ai word in
        (out.final_significance
          ≡ best significance ai.significance_score
              (bounds significance (significance_rules unit table city item facts ai word)))
        × (out.final_consent
            ≡ best consent_placement ai.consent_placement_score
                (bounds consent_placement (consent_rules unit table city item facts ai word)))
  unfolding apply_score_floors
  floors_eq_best word =
      let rules = significance_rules unit table city item facts ai word in
      let first =
        apply_triggers unit table city item facts ai significance rules
          (ai.significance_score, []) in
      (
        apply_triggers-eq-best significance rules ai.significance_score [],
        apply_triggers-eq-best consent_placement (consent_rules unit table city item facts ai word)
            ai.consent_placement_score first.1,
      )
