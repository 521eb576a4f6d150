-- ===== src/Badges/Process/Agree.antt =====
-- ai/badges_process.py: the badges of the commit against those of the nightly queries.
use docket_pub.Prelude.{
  ℕ, ◌*◌, ◌≡◌, refl, ap, ◌∙◌, sym, Bool, true, ◌&&◌, ◌||◌, some, List, ◌++◌, String, arith,
}
use docket_pub.Regex.{found}
use docket_pub.Scoring.Facts.{Facts, ActionType, same_action, or_empty}
use docket_pub.Scoring.Floors.{ScoreOverrides}
use docket_pub.Badges.Types.{Row, item_of, AiConfidence, completed}
use docket_pub.Badges.Process.{
  emergency_title, emergency_prefix, is_at_most, is_confident, is_emergency, any_consent_floor,
  slug_if, compute_on_write_process_badges, hidden_on_consent, sole_source, legal_settlement,
  emergency_action, is_completed,
}
use docket_pub.Badges.Write.{finalized}

and_true : (b : Bool) → b ≡ (b && true)
and_true b = ground arith

regrouped : (a b c d : Bool) → (a && b && (c || d)) ≡ (a && b && true && (d || c))
regrouped a b c d = ground arith

-- The four tests one by one.
merged :
    (a b c d a' b' c' d' : Bool)
    → a ≡ a'
    → b ≡ b'
    → c ≡ c'
    → d ≡ d'
    → (slug_if a "hidden_on_consent"
        ++ slug_if b "sole_source"
        ++ slug_if c "legal_settlement"
        ++ slug_if d "emergency_action")
      ≡ (slug_if a' "hidden_on_consent"
          ++ slug_if b' "sole_source"
          ++ slug_if c' "legal_settlement"
          ++ slug_if d' "emergency_action")
merged a b c d a' b' c' d' p q r s = rw (p, q, r, s) refl

module _ (word : ℕ → Bool) (unit : ℕ) where
  -- The slugs of the queries that select a row.
  unfoldable pub queried_slugs : Row → List String
  queried_slugs r =
      slug_if (hidden_on_consent word unit r) "hidden_on_consent"
      ++ slug_if (sole_source word unit r) "sole_source"
      ++ slug_if (legal_settlement word unit r) "legal_settlement"
      ++ slug_if (emergency_action word unit r) "emergency_action"

  -- The badges that the commit computes for an item are those whose nightly query selects its row
  -- behind the commit, when the item ends as completed and the two searches of its title agree.
  pub on_write_agrees :
      (r : Row) (facts : Facts) (scores : ScoreOverrides) (confidence : AiConfidence)
      → found word emergency_prefix (or_empty r.title)
        ≡ found word emergency_title (or_empty r.title)
      → compute_on_write_process_badges word unit (item_of r) facts scores (some confidence)
        ≡ queried_slugs (finalized facts scores confidence completed r)
  unfolding compute_on_write_process_badges queried_slugs hidden_on_consent sole_source
      legal_settlement emergency_action is_completed finalized item_of
  on_write_agrees r facts scores confidence h =
      merged _ _ _ _ _ _ _ _
        (regrouped r.is_consent (is_at_most scores.final_consent (3 * unit))
          (is_confident (some confidence)) (any_consent_floor (some scores)))
        (and_true _) (and_true _)
        (ap
            (λ b.
              same_action facts.action_type ActionType.emergency_procurement
              || is_emergency facts.procurement_method
              || b)
            (sym h)
          ∙ and_true _)
