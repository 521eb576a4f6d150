-- ===== src/Scoring/Floors/Audit.antt =====
-- ai/floors.py: the audit record of what fired, and a second pass over its own result.
use mathlib.Core.List.{append-nil, append_assoc}
use docket_pub.Prelude.{
  ℕ, ◌≡◌, refl, sym, ◌∙◌, Bool, true, false, ◌&&◌, Option, some, List, [], ◌∷◌, ◌++◌, inl, inr,
  Bool-cases, if◌then◌else◌, &&_parts,
}
use docket_pub.Scoring.Facts.{Facts, Rewrite, Item}
use docket_pub.Scoring.Floors.{
  ScoreField, significance, consent_placement, FloorTrigger, Override, Fired, beats,
  effective_bound, fires, apply_trigger, apply_triggers, significance_rules, consent_rules,
  apply_score_floors,
}

-- The entries lead from the score `before` to the score `after`: each is about this field, starts at
-- the score where the one above it ended and strictly improves on it.
abbrev pub Leads : ScoreField → Option ℕ → List Fired → Option ℕ → Type 0
Leads field before [] after = before ≡ after
Leads field before (r ∷ rs) after =
    (r.field ≡ field)
    × (r.pre ≡ before)
    × (beats field r.post r.pre ≡ true)
    × Leads field (some r.post) rs after

module _ (unit : ℕ) (table : List Override) (city : ℕ) (item : Item) (facts : Facts)
    (ai : Rewrite) where
  -- What a loop adds to the record.
  pub added : ScoreField → List FloorTrigger → Option ℕ → List Fired
  added field [] s = []
  added field (t ∷ ts) s =
      let b = effective_bound unit table city item facts ai t in
      let rest = added field ts (some b) in
      let rest' = added field ts s in
      if fires unit table city item facts ai field t && beats field b s
      then record { trigger = t.name; field = field; pre = s; post = b } ∷ rest
      else rest'

  abbrev entry : ScoreField → FloorTrigger → Option ℕ → Fired
  entry field t s = record {
    trigger = t.name;
    field = field;
    pre = s;
    post = effective_bound unit table city item facts ai t;
  }

  abbrev test : ScoreField → FloorTrigger → Option ℕ → Bool
  test field t s =
      fires unit table city item facts ai field t
      && beats field (effective_bound unit table city item facts ai t) s

  apply_trigger_hit :
      (field : ScoreField) (t : FloorTrigger) (s : Option ℕ) (fired : List Fired)
      → test field t s ≡ true
      → apply_trigger unit table city item facts ai field t (s, fired)
        ≡ (some (effective_bound unit table city item facts ai t), fired ++ entry field t s ∷ [])
  unfolding apply_trigger
  apply_trigger_hit field t s fired e = rw e

  apply_trigger_miss :
      (field : ScoreField) (t : FloorTrigger) (s : Option ℕ) (fired : List Fired)
      → test field t s ≡ false
      → apply_trigger unit table city item facts ai field t (s, fired) ≡ (s, fired)
  unfolding apply_trigger
  apply_trigger_miss field t s fired e = rw e

  abbrev Split : ScoreField → List FloorTrigger → Option ℕ → List Fired → Type 0
  Split field ts s fired =
      let out = apply_triggers unit table city item facts ai field ts (s, fired) in
      (out.1 ≡ fired ++ added field ts s) × Leads field s (added field ts s) out.0

  added_hit :
      (field : ScoreField) (t : FloorTrigger) (ts : List FloorTrigger) (s : Option ℕ)
      → test field t s ≡ true
      → added field (t ∷ ts) s
        ≡ entry field t s ∷ added field ts (some (effective_bound unit table city item facts ai t))
  unfolding added
  added_hit field t ts s e = rw e

  added_miss :
      (field : ScoreField) (t : FloorTrigger) (ts : List FloorTrigger) (s : Option ℕ)
      → test field t s ≡ false
      → added field (t ∷ ts) s ≡ added field ts s
  unfolding added
  added_miss field t ts s e = rw e

  apply_triggers-cons :
      (field : ScoreField) (t : FloorTrigger) (ts : List FloorTrigger) (acc : Option ℕ × List Fired)
      → apply_triggers unit table city item facts ai field (t ∷ ts) acc
        ≡ apply_triggers unit table city item facts ai field ts
            (apply_trigger unit table city item facts ai field t acc)
  unfolding apply_triggers
  apply_triggers-cons field t ts acc = refl

  apply_triggers-nil :
      (field : ScoreField) (acc : Option ℕ × List Fired)
      → apply_triggers unit table city item facts ai field [] acc ≡ acc
  unfolding apply_triggers
  apply_triggers-nil field acc = refl

  added-nil : (field : ScoreField) (s : Option ℕ) → added field [] s ≡ []
  unfolding added
  added-nil field s = refl

  apply_triggers-Split :
      (field : ScoreField) (ts : List FloorTrigger) (s : Option ℕ) (fired : List Fired)
      → Split field ts s fired
  apply_triggers-Split field [] s fired =
      simp (apply_triggers-nil, added-nil) (sym (append-nil fired), refl)
  apply_triggers-Split field (t ∷ ts) s fired =
      let b = effective_bound unit table city item facts ai t in
      elim (Bool-cases (test field t s)) [
        | inl e ↦
            let (same, chain) =
              apply_triggers-Split field ts (some b) (fired ++ entry field t s ∷ []) in
            rw (apply_triggers-cons, apply_trigger_hit field t s fired e, added_hit field t ts s e)
              (
                same ∙ append_assoc fired (entry field t s ∷ []) (added field ts (some b)),
                (refl, refl, (&&_parts _ _ e).1, chain),
              )
        | inr e ↦
            rw
              (apply_triggers-cons, apply_trigger_miss field t s fired e, added_miss field t ts s e)
              (apply_triggers-Split field ts s fired)
      ]

  -- The audit record is two chains, first the significance entries and then the consent ones: each
  -- begins at the model's score, every entry starts where the one before it ended and strictly
  -- improves the score (or replaces a missing one), and the last ends at the final score.
  pub audit-Leads :
      (word : ℕ → Bool)
      → let out = apply_score_floors unit table city item facts ai word in
        (sig : List Fired) × (consent : List Fired) × (out.triggers ≡ sig ++ consent)
        × Leads significance ai.significance_score sig out.final_significance
        × Leads consent_placement ai.consent_placement_score consent out.final_consent
  unfolding apply_score_floors
  audit-Leads word =
      let rules = significance_rules unit table city item facts ai word in
      let rules' = consent_rules unit table city item facts ai word in
      let first =
        apply_triggers unit table city item facts ai significance rules
          (ai.significance_score, []) in
      let (all_sig, chain) = apply_triggers-Split significance rules ai.significance_score [] in
      let (all_consent, chain') =
        apply_triggers-Split consent_placement rules' ai.consent_placement_score first.1 in
      (
        added significance rules ai.significance_score,
        added consent_placement rules' ai.consent_placement_score,
        rw all_consent (rw all_sig),
        chain,
        chain',
      )
