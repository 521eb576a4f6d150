-- ===== src/Alignment/Align/Found.antt =====
-- ai/transcripts/aligner.py: what the loop over the groups finds for one event.
use docket_pub.Prelude.{
  ℕ, ◌≡◌, subst, Bool, true, false, ◌⊎◌, inl, inr, List, [], ◌∷◌, ◌++◌, Text, contains, sorted_set,
  Bool-cases, In, In-append_left, arith, In-append_right, In-of_keep, In-of_any, In-of_contains,
  In-of_sorted_set, In-map,
}
use docket_pub.Alignment.Types.{Event}
use docket_pub.Alignment.Grouping.{
  Group, item_key, group_key, overlap, is_settled_amendment, touches,
}
use docket_pub.Alignment.Grouping.Holds.{Some, HasFirst, HasSecond}
use docket_pub.Alignment.Pairing.Covers.{PairedFirst, PairedSecond, pair_group-Kept}
use docket_pub.Alignment.Align.{
  Compared, is_minuted, omission_of, addition_of, compare_group, compare_groups,
}

-- The event is in a pair, or a candidate on it is listed.
abbrev pub FoundFirst : Event → Compared → Type 0
FoundFirst e c = PairedFirst e c.pairs ⊎ In (omission_of e) c.omis

abbrev pub FoundSecond : Event → Compared → Type 0
FoundSecond e c = PairedSecond e c.pairs ⊎ In (addition_of e) c.adds

module _ (fold : ℕ → Text) (word : ℕ → Bool) (canonical : Text → Text) where
  module _ (s : List ℕ) where
    pub compare_group-FoundFirst :
        (e : Event) (g : Group) (c : Compared)
        → FoundFirst e c
        → FoundFirst e (compare_group fold word canonical s g c)
    unfolding compare_group
    compare_group-FoundFirst e g c h = elim (Bool-cases (touches g.key s)) [
      | inl q ↦ rw (q, compare_group) h
      | inr q ↦ elim h [
        | inl (m, i) ↦ rw (q, compare_group) (inl (m, In-append_left (e, m) c.pairs _ i))
        | inr i ↦ rw (q, compare_group) (inr (In-append_left (omission_of e) c.omis _ i))
      ]
    ]

    pub compare_group-FoundSecond :
        (e : Event) (g : Group) (c : Compared)
        → FoundSecond e c
        → FoundSecond e (compare_group fold word canonical s g c)
    unfolding compare_group
    compare_group-FoundSecond e g c h = elim (Bool-cases (touches g.key s)) [
      | inl q ↦ rw (q, compare_group) h
      | inr q ↦ elim h [
        | inl (m, i) ↦ rw (q, compare_group) (inl (m, In-append_left (m, e) c.pairs _ i))
        | inr i ↦ rw (q, compare_group) (inr (In-append_left (addition_of e) c.adds _ i))
      ]
    ]

    pub group_of-FoundFirst :
        (e : Event) (g : Group) (c : Compared)
        → HasFirst s false e g
        → is_minuted e ≡ true
        → FoundFirst e (compare_group fold word canonical s g c)
    unfolding compare_group
    group_of-FoundFirst e g c h mt = elim ((pair_group-Kept g.ts g.ms).1 e h.0) [
      | inl (m, i) ↦ rw (h.1, compare_group) (inl (m, In-append_right (e, m) c.pairs _ i))
      | inr i ↦
          rw (h.1, compare_group)
            (inr (
              In-append_right (omission_of e) c.omis _
                (In-map omission_of e _ (In-of_keep is_minuted e _ mt i))))
    ]

    pub group_of-FoundSecond :
        (e : Event) (g : Group) (c : Compared)
        → HasSecond s false e g
        → is_minuted e ≡ true
        → FoundSecond e (compare_group fold word canonical s g c)
    unfolding compare_group
    group_of-FoundSecond e g c h mt = elim ((pair_group-Kept g.ts g.ms).2 e h.0) [
      | inl (m, i) ↦ rw (h.1, compare_group) (inl (m, In-append_right (m, e) c.pairs _ i))
      | inr i ↦
          rw (h.1, compare_group)
            (inr (
              In-append_right (addition_of e) c.adds _
                (In-map addition_of e _ (In-of_keep is_minuted e _ mt i))))
    ]

    module _ (F : Compared → Type 0) (G : Group → Type 0)
        (keeps : (g : Group) (c : Compared) → F c → F (compare_group fold word canonical s g c))
        (finds : (g : Group) (c : Compared)
          → G g
          → F (compare_group fold word canonical s g c)) where
      compare_groups_keep :
          (gs : List Group) (c : Compared) → F c → F (compare_groups fold word canonical s gs c)
      unfolding compare_groups
      compare_groups_keep [] c h = h
      compare_groups_keep (g ∷ gs) c h = compare_groups_keep gs _ (keeps g c h)

      -- What the loop finds in one group, it has found at its end.
      pub compare_groups_find :
          (gs : List Group) (c : Compared)
          → Some G gs
          → F (compare_groups fold word canonical s gs c)
      unfolding compare_groups
      compare_groups_find [] c (g, m, h) = absurd m
      compare_groups_find (x ∷ gs) c (g, inl q, h) =
          compare_groups_keep gs _ (finds x c (subst G q h))
      compare_groups_find (x ∷ gs) c (g, inr m, h) = compare_groups_find gs _ (g, m, h)

  key_cases :
      (s : List ℕ) (e : Event) (block : List ℕ)
      → (group_key fold e block ≡ item_key (sorted_set e.item_refs))
        ⊎ (touches (group_key fold e block) s ≡ false)
  unfolding group_key
  key_cases s e block = ground arith

  pub touches_item :
      (s : List ℕ) (e : Event) (block : List ℕ)
      → touches (group_key fold e block) s ≡ true
      → (n : ℕ) × In n s × In n e.item_refs
  touches_item s e block h = elim (key_cases s e block) [
    | inr q ↦ absurd (cc (h, q))
    | inl q ↦
        let (n, m, c) = In-of_any (λ n. contains n (sorted_set e.item_refs)) s (rw q at h) in
        (n, m, In-of_sorted_set n e.item_refs (In-of_contains n _ c))
  ]

  pub amendment_item :
      (s : List ℕ) (e : Event)
      → is_settled_amendment s e ≡ true
      → (n : ℕ) × In n s × In n (e.detail.items ++ e.item_refs)
  unfolding is_settled_amendment
  amendment_item s e h =
      let o : overlap (e.detail.items ++ e.item_refs) s ≡ true = ground (arith, h) in
      let (n, m, c) = In-of_any (λ n. contains n s) (e.detail.items ++ e.item_refs) o in
      (n, In-of_contains n s c, m)
