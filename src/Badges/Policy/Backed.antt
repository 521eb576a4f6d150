-- ===== src/Badges/Policy/Backed.antt =====
-- ai/badges_policy.py: what stands behind a badge that compute_policy_badges returns.
use docket_pub.Prelude.{
  ◌≡◌, refl, subst, ◌⊎◌, inl, inr, Bool, true, false, Option, none, some, List, [], ◌∷◌, String,
  Text, str_eq, any, keep, All, All-map, In, Bool-cases, Option-cases,
}
use docket_pub.Scoring.Facts.{Facts, Item, Rewrite}
use docket_pub.Votes.Words.{Unicode}
use docket_pub.Badges.Types.{Trigger, applied, flagged, llm}
use docket_pub.Badges.Policy.{
  EnabledBadge, Decided, has_slug, is_match, deterministic_policy_match, decide_badge, decided,
  decide_badges, compute_policy_badges, decide_status_and_confidence, resolve_source,
}

Given : (Decided → Type 0) → Option Decided → Type 0
Given P none = Unit
Given P (some d) = P d

decided-Given :
    (slug : String) (llm_hit det : Bool) (t : Trigger)
    → Given
        (λ d.
          (d.slug ≡ slug)
          × (((d.status ≡ applied) × (det ≡ true))
              ⊎ ((d.status ≡ flagged) × (det ≡ false) × (llm_hit ≡ true) × (d.source ≡ llm))))
        (decided slug llm_hit det t)
unfolding Given decided decide_status_and_confidence resolve_source
decided-Given slug true true t = (refl, inl (refl, refl))
decided-Given slug true false t = (refl, inr (refl, refl, refl, refl))
decided-Given slug false true t = (refl, inl (refl, refl))
decided-Given slug false false t = tt

-- What is in a part of a list is in the list.
any-keep : (p q : String → Bool) (xs : List String) → any p (keep q xs) ≡ true → any p xs ≡ true
any-keep p q [] h = h
any-keep p q (x ∷ xs) h = elim (Bool-cases (p x)) [
  | inl e ↦ rw e refl
  | inr e ↦ elim (Bool-cases (q x)) [
    | inl k ↦ rw e (any-keep p q xs (rw (k, e) at h))
    | inr k ↦ rw e (any-keep p q xs (rw k at h))
  ]
]

module _ (u : Unicode) (search : (pattern text : Text) → Option Bool) (topic : Option Text)
    (item : Item) (facts : Facts) where
  -- The badge is applied on a deterministic match, alone or with the model; it is flagged when only
  -- the model suggested it.
  unfoldable pub IsBackedBy : (suggested : List String) → EnabledBadge → Decided → Type 0
  IsBackedBy suggested b d =
      (d.slug ≡ b.slug)
      × (((d.status ≡ applied)
            × (is_match (deterministic_policy_match u search topic item facts b.matcher_hints)
                ≡ true))
          ⊎ ((d.status ≡ flagged)
              × (is_match (deterministic_policy_match u search topic item facts b.matcher_hints)
                  ≡ false)
              × (has_slug b.slug suggested ≡ true)
              × (d.source ≡ llm)))

  abbrev pub IsBacked : (suggested : List String) → List EnabledBadge → Decided → Type 0
  IsBacked suggested enabled d = (b : EnabledBadge) × In b enabled × IsBackedBy suggested b d

  decide_badge-Given :
      (suggested : List String) (b : EnabledBadge)
      → Given (IsBackedBy suggested b) (decide_badge u search topic item facts suggested b)
  unfolding decide_badge IsBackedBy
  decide_badge-Given suggested b = decided-Given b.slug (has_slug b.slug suggested) _ _

  decide_badge-IsBacked :
      (suggested : List String) (b : EnabledBadge) (d : Decided)
      → decide_badge u search topic item facts suggested b ≡ some d
      → IsBackedBy suggested b d
  unfolding Given
  decide_badge-IsBacked suggested b d h =
      subst (Given (IsBackedBy suggested b)) h (decide_badge-Given suggested b)

  decide_badges-IsBacked :
      (suggested : List String) (bs : List EnabledBadge)
      → All (IsBacked suggested bs) (decide_badges u search topic item facts suggested bs)
  unfolding decide_badges
  decide_badges-IsBacked suggested [] = tt
  decide_badges-IsBacked suggested (b ∷ bs) =
      let later =
        All-map (IsBacked suggested bs) (IsBacked suggested (b ∷ bs))
          (decide_badges u search topic item facts suggested bs) (λ d (c, m, k). (c, inr m, k))
          (decide_badges-IsBacked suggested bs) in
      elim (Option-cases (decide_badge u search topic item facts suggested b)) [
        | inl q ↦ rw (decide_badges, q) later
        | inr (d, q) ↦
            rw (decide_badges, q) ((b, inl refl, decide_badge-IsBacked suggested b d q), later)
      ]

  wider :
      (suggested : List String) (enabled : List EnabledBadge) (b : EnabledBadge) (d : Decided)
      → IsBackedBy (keep (λ s. any (λ c. str_eq c.slug s) enabled) suggested) b d
      → IsBackedBy suggested b d
  unfolding IsBackedBy has_slug
  wider suggested enabled b d (e, inl k) = (e, inl k)
  wider suggested enabled b d (e, inr (f, g, h, k)) =
      (e, inr (f, g, any-keep (λ s. str_eq s b.slug) _ suggested h, k))

  -- Every policy badge that an item gets is one that the city enables. It is applied only on a
  -- deterministic match; what only the model suggested is flagged for review.
  pub policy_badges-IsBacked :
      (rewrite : Rewrite) (enabled : List EnabledBadge)
      → All
          (IsBacked rewrite.suggested_badge_slugs enabled)
          (compute_policy_badges u search topic item facts rewrite enabled)
  unfolding compute_policy_badges
  policy_badges-IsBacked rewrite enabled =
      All-map _ _ (compute_policy_badges u search topic item facts rewrite enabled)
        (λ d (b, m, k). (b, m, wider rewrite.suggested_badge_slugs enabled b d k))
        (decide_badges-IsBacked _ enabled)
