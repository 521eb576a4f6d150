-- ===== src/Alignment/Grouping/Holds.antt =====
-- ai/transcripts/aligner.py: the group that an event is put into.
use docket_pub.Prelude.{
  ℕ, ◌≡◌, refl, sym, ap, subst, Bool, true, false, List, [], ◌∷◌, Text, ◌==◌, ==_iff, Bool-cases,
  In, In-append_left, In-append_right, inl, inr,
}
use docket_pub.Alignment.Types.{Event}
use docket_pub.Alignment.Grouping.{
  GroupKey, unlisted_key, meeting_key, consent_key, item_key, same_numbers, same_key, Group,
  put_group, add_transcript, add_minutes, is_settled_amendment, group_key, group_transcript,
  group_minutes, touches, overlap,
}

same_numbers→eq : (ns ms : List ℕ) → same_numbers ns ms ≡ true → ns ≡ ms
same_numbers→eq [] [] h = refl
same_numbers→eq [] (m ∷ ms) h = absurd (cc h)
same_numbers→eq (n ∷ ns) [] h = absurd (cc h)
same_numbers→eq (n ∷ ns) (m ∷ ms) h = elim (Bool-cases (n == m)) [
  | inl e ↦ cc ((==_iff n m).0 e, same_numbers→eq ns ms (rw e at h))
  | inr e ↦ absurd (cc (rw e at h))
]

touches-same_key : (k l : GroupKey) (s : List ℕ) → same_key k l ≡ true → touches k s ≡ touches l s
unfolding same_key
touches-same_key (item_key ns) (item_key ms) s h = ap (overlap s) (same_numbers→eq ns ms h)
touches-same_key (unlisted_key t) (unlisted_key u) s h = refl
touches-same_key meeting_key meeting_key s h = refl
touches-same_key consent_key consent_key s h = refl
touches-same_key _ _ s h = absurd (cc h)

-- Some group of a list.
abbrev pub Some : (Group → Type 0) → List Group → Type 0
Some P gs = (g : Group) × In g gs × P g

put_group_adds :
    (P : Group → Type 0) (k : GroupKey) (change : Group → Group) (gs : List Group)
    → P (change (record { key = k; ts = []; ms = [] }))
    → ((g : Group) → same_key k g.key ≡ true → P (change g))
    → Some P (put_group k change gs)
unfolding put_group
put_group_adds P k change [] new old = (_, inl refl, new)
put_group_adds P k change (g ∷ gs) new old = elim (Bool-cases (same_key k g.key)) [
  | inl h ↦ rw (h, put_group) (_, inl refl, old g h)
  | inr h ↦ let (x, m, p) = put_group_adds P k change gs new old in rw (h, put_group) (x, inr m, p)
]

put_group_keeps :
    (P : Group → Type 0) (k : GroupKey) (change : Group → Group) (gs : List Group)
    → ((g : Group) → P g → P (change g))
    → Some P gs
    → Some P (put_group k change gs)
unfolding put_group
put_group_keeps P k change [] old (g, m, p) = absurd m
put_group_keeps P k change (x ∷ gs) old (g, m, p) = elim (Bool-cases (same_key k x.key)) [
  | inl h ↦ elim m [
    | inl q ↦ rw (h, put_group) (_, inl refl, old x (subst P q p))
    | inr n ↦ rw (h, put_group) (g, inr n, p)
  ]
  | inr h ↦ elim m [
    | inl q ↦ rw (h, put_group) (g, inl q, p)
    | inr n ↦
        let (y, n', r) = put_group_keeps P k change gs old (g, n, p) in
        rw (h, put_group) (y, inr n', r)
  ]
]

-- A group has the event on a side, and it is left out for the settled items or not, as `v` says.
abbrev pub HasFirst : List ℕ → Bool → Event → Group → Type 0
HasFirst s v e g = In e g.ts × (touches g.key s ≡ v)

abbrev pub HasSecond : List ℕ → Bool → Event → Group → Type 0
HasSecond s v e g = In e g.ms × (touches g.key s ≡ v)

module _ (fold : ℕ → Text) (s block : List ℕ) where
  group_transcript_keeps :
      (v : Bool) (e : Event) (es : List Event) (gs : List Group)
      → Some (HasFirst s v e) gs
      → Some (HasFirst s v e) (group_transcript fold s block es gs)
  unfolding group_transcript
  group_transcript_keeps v e [] gs h = h
  group_transcript_keeps v e (f ∷ es) gs h = elim (Bool-cases (is_settled_amendment s f)) [
    | inl q ↦ rw (q, group_transcript) (group_transcript_keeps v e es gs h)
    | inr q ↦
        rw (q, group_transcript)
          (group_transcript_keeps v e es _ (
            put_group_keeps (HasFirst s v e) _ (add_transcript f) gs
              (λ g p. (In-append_left e g.ts _ p.0, p.1)) h))
  ]

  -- The minutes' events leave the transcript's where they are.
  pub group_minutes_keeps_transcript :
      (v : Bool) (e : Event) (es : List Event) (gs : List Group)
      → Some (HasFirst s v e) gs
      → Some (HasFirst s v e) (group_minutes fold s block es gs)
  unfolding group_minutes
  group_minutes_keeps_transcript v e [] gs h = h
  group_minutes_keeps_transcript v e (f ∷ es) gs h = elim (Bool-cases (is_settled_amendment s f)) [
    | inl q ↦ rw (q, group_minutes) (group_minutes_keeps_transcript v e es gs h)
    | inr q ↦
        rw (q, group_minutes)
          (group_minutes_keeps_transcript v e es _
            (put_group_keeps (HasFirst s v e) _ (add_minutes f) gs (λ g p. p) h))
  ]

  group_minutes_keeps :
      (v : Bool) (e : Event) (es : List Event) (gs : List Group)
      → Some (HasSecond s v e) gs
      → Some (HasSecond s v e) (group_minutes fold s block es gs)
  unfolding group_minutes
  group_minutes_keeps v e [] gs h = h
  group_minutes_keeps v e (f ∷ es) gs h = elim (Bool-cases (is_settled_amendment s f)) [
    | inl q ↦ rw (q, group_minutes) (group_minutes_keeps v e es gs h)
    | inr q ↦
        rw (q, group_minutes)
          (group_minutes_keeps v e es _ (
            put_group_keeps (HasSecond s v e) _ (add_minutes f) gs
              (λ g p. (In-append_left e g.ms _ p.0, p.1)) h))
  ]

  group_transcript_head :
      (e : Event) (es : List Event) (gs : List Group)
      → is_settled_amendment s e ≡ false
      → Some
          (HasFirst s (touches (group_key fold e block) s) e)
          (group_transcript fold s block (e ∷ es) gs)
  unfolding group_transcript
  group_transcript_head e es gs n =
      let k = group_key fold e block in
      rw (n, group_transcript)
        (group_transcript_keeps (touches k s) e es _ (
          put_group_adds (HasFirst s (touches k s) e) k (add_transcript e) gs (inl refl, refl)
            (λ g h. (In-append_right e g.ts _ (inl refl), sym (touches-same_key k g.key s h)))))

  pub group_transcript_holds :
      (e : Event) (es : List Event) (gs : List Group)
      → In e es
      → is_settled_amendment s e ≡ false
      → Some
          (HasFirst s (touches (group_key fold e block) s) e)
          (group_transcript fold s block es gs)
  unfolding group_transcript
  group_transcript_holds e [] gs m n = absurd m
  group_transcript_holds e (f ∷ es) gs (inl q) n =
      subst
        (λ (x : Event).
          Some (HasFirst s (touches (group_key fold e block) s) e)
            (group_transcript fold s block (x ∷ es) gs))
        q (group_transcript_head e es gs n)
  group_transcript_holds e (f ∷ es) gs (inr m) n = elim (Bool-cases (is_settled_amendment s f)) [
    | inl q ↦ rw (q, group_transcript) (group_transcript_holds e es gs m n)
    | inr q ↦ rw (q, group_transcript) (group_transcript_holds e es _ m n)
  ]

  group_minutes_head :
      (e : Event) (es : List Event) (gs : List Group)
      → is_settled_amendment s e ≡ false
      → Some
          (HasSecond s (touches (group_key fold e block) s) e)
          (group_minutes fold s block (e ∷ es) gs)
  unfolding group_minutes
  group_minutes_head e es gs n =
      let k = group_key fold e block in
      rw (n, group_minutes)
        (group_minutes_keeps (touches k s) e es _ (
          put_group_adds (HasSecond s (touches k s) e) k (add_minutes e) gs (inl refl, refl)
            (λ g h. (In-append_right e g.ms _ (inl refl), sym (touches-same_key k g.key s h)))))

  pub group_minutes_holds :
      (e : Event) (es : List Event) (gs : List Group)
      → In e es
      → is_settled_amendment s e ≡ false
      → Some (HasSecond s (touches (group_key fold e block) s) e) (group_minutes fold s block es gs)
  unfolding group_minutes
  group_minutes_holds e [] gs m n = absurd m
  group_minutes_holds e (f ∷ es) gs (inl q) n =
      subst
        (λ (x : Event).
          Some (HasSecond s (touches (group_key fold e block) s) e)
            (group_minutes fold s block (x ∷ es) gs))
        q (group_minutes_head e es gs n)
  group_minutes_holds e (f ∷ es) gs (inr m) n = elim (Bool-cases (is_settled_amendment s f)) [
    | inl q ↦ rw (q, group_minutes) (group_minutes_holds e es gs m n)
    | inr q ↦ rw (q, group_minutes) (group_minutes_holds e es _ m n)
  ]
