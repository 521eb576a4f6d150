-- ===== src/Alignment/Pairing/Covers.antt =====
-- ai/transcripts/aligner.py: where an event goes in pair_group.
use docket_pub.Prelude.{
  ◌≡◌, ap, subst, arith, List, [], ◌∷◌, ◌++◌, length, drop, any, ◌⊎◌, inl, inr, All, All-append,
  Bool-cases, In, In-of_keep, In-append_left, In-append_right, any-In,
}
use docket_pub.Alignment.Types.{Event, EventType, same_type, same_type_refl, same_type→eq}
use docket_pub.Alignment.Pairing.{
  of_type, types_of, all_types, zip, Paired, pair_type, pair_types, pair_group,
}

-- The first of a pair, or the second.
abbrev pub PairedFirst : Event → List (Event × Event) → Type 0
PairedFirst e ps = (m : Event) × In (e, m) ps

abbrev pub PairedSecond : Event → List (Event × Event) → Type 0
PairedSecond e ps = (t : Event) × In (t, e) ps

-- An event of the transcript is paired or left over, and one of the minutes.
abbrev pub Kept : Event → Paired → Type 0
Kept e p = PairedFirst e p.pairs ⊎ In e p.t_only

abbrev pub KeptBy : Event → Paired → Type 0
KeptBy e p = PairedSecond e p.pairs ⊎ In e p.m_only

zip-first :
    (e : Event) (ts ms : List Event)
    → In e ts
    → PairedFirst e (zip ts ms) ⊎ In e (drop (length ms) ts)
zip-first e [] ms m = absurd m
zip-first e (t ∷ ts) [] m = inr m
zip-first e (t ∷ ts) (m ∷ ms) (inl q) = inl (m, inl (ap (λ (x : Event). (x, m)) q))
zip-first e (t ∷ ts) (m ∷ ms) (inr i) = elim (zip-first e ts ms i) [
  | inl (x, h) ↦ inl (x, inr h)
  | inr h ↦ inr h
]

zip-second :
    (e : Event) (ts ms : List Event)
    → In e ms
    → PairedSecond e (zip ts ms) ⊎ In e (drop (length ts) ms)
zip-second e ts [] m = absurd m
zip-second e [] (m ∷ ms) i = inr i
zip-second e (t ∷ ts) (m ∷ ms) (inl q) = inl (t, inl (ap (λ (x : Event). (t, x)) q))
zip-second e (t ∷ ts) (m ∷ ms) (inr i) = elim (zip-second e ts ms i) [
  | inl (x, h) ↦ inl (x, inr h)
  | inr h ↦ inr h
]

all_types-In : (et : EventType) → In et all_types
all_types-In et = ground arith

-- A pair is of one type.
abbrev pub IsAlike : Event × Event → Type 0
IsAlike (t, m) = t.event_type ≡ m.event_type

abbrev IsOf : EventType → Event → Type 0
IsOf et e = e.event_type ≡ et

of_type-IsOf : (et : EventType) (es : List Event) → All (IsOf et) (of_type et es)
of_type-IsOf et [] = tt
of_type-IsOf et (e ∷ es) = elim (Bool-cases (same_type e.event_type et)) [
  | inl h ↦ rw h (same_type→eq e.event_type et h, of_type-IsOf et es)
  | inr h ↦ rw h (of_type-IsOf et es)
]

zip-IsAlike :
    (et : EventType) (ts ms : List Event)
    → All (IsOf et) ts
    → All (IsOf et) ms
    → All IsAlike (zip ts ms)
zip-IsAlike et [] ms h k = tt
zip-IsAlike et (t ∷ ts) [] h k = tt
zip-IsAlike et (t ∷ ts) (m ∷ ms) h k = (cc (h.0, k.0), zip-IsAlike et ts ms h.1 k.1)

module _ (t_evs m_evs : List Event) where
  pair_types-IsAlike :
      (ets : List EventType) (p : Paired)
      → All IsAlike p.pairs
      → All IsAlike (pair_types t_evs m_evs ets p).pairs
  unfolding pair_types pair_type
  pair_types-IsAlike [] p h = h
  pair_types-IsAlike (et ∷ ets) p h = pair_types-IsAlike ets _ (
      All-append IsAlike p.pairs _ h
        (zip-IsAlike et _ _ (of_type-IsOf et t_evs) (of_type-IsOf et m_evs)))

  -- What is kept stays kept.
  pair_types-Kept :
      (e : Event) (ets : List EventType) (p : Paired)
      → Kept e p
      → Kept e (pair_types t_evs m_evs ets p)
  unfolding pair_types pair_type
  pair_types-Kept e [] p h = h
  pair_types-Kept e (et ∷ ets) p (inl (m, h)) =
      pair_types-Kept e ets _ (inl (m, In-append_left (e, m) p.pairs _ h))
  pair_types-Kept e (et ∷ ets) p (inr h) =
      pair_types-Kept e ets _ (inr (In-append_left e p.t_only _ h))

  pair_types-KeptBy :
      (e : Event) (ets : List EventType) (p : Paired)
      → KeptBy e p
      → KeptBy e (pair_types t_evs m_evs ets p)
  unfolding pair_types pair_type
  pair_types-KeptBy e [] p h = h
  pair_types-KeptBy e (et ∷ ets) p (inl (t, h)) =
      pair_types-KeptBy e ets _ (inl (t, In-append_left (t, e) p.pairs _ h))
  pair_types-KeptBy e (et ∷ ets) p (inr h) =
      pair_types-KeptBy e ets _ (inr (In-append_left e p.m_only _ h))

  of_own_type : (e : Event) (es : List Event) → In e es → In e (of_type e.event_type es)
  of_own_type e es m =
      In-of_keep (λ x. same_type x.event_type e.event_type) e es (same_type_refl e.event_type) m

  types-Kept :
      (e : Event) (ets : List EventType) (p : Paired)
      → In e t_evs
      → In e.event_type ets
      → Kept e (pair_types t_evs m_evs ets p)
  unfolding pair_types pair_type
  types-Kept e [] p m i = absurd i
  types-Kept e (et ∷ ets) p m (inl q) =
      let own : In e (of_type et t_evs) =
        subst (λ (x : EventType). In e (of_type x t_evs)) q (of_own_type e t_evs m) in
      pair_types-Kept e ets _ (elim (zip-first e (of_type et t_evs) (of_type et m_evs) own) [
        | inl (x, h) ↦ inl (x, In-append_right (e, x) p.pairs _ h)
        | inr h ↦ inr (In-append_right e p.t_only _ h)
      ])
  types-Kept e (et ∷ ets) p m (inr i) = types-Kept e ets _ m i

  types-KeptBy :
      (e : Event) (ets : List EventType) (p : Paired)
      → In e m_evs
      → In e.event_type ets
      → KeptBy e (pair_types t_evs m_evs ets p)
  unfolding pair_types pair_type
  types-KeptBy e [] p m i = absurd i
  types-KeptBy e (et ∷ ets) p m (inl q) =
      let own : In e (of_type et m_evs) =
        subst (λ (x : EventType). In e (of_type x m_evs)) q (of_own_type e m_evs m) in
      pair_types-KeptBy e ets _ (elim (zip-second e (of_type et t_evs) (of_type et m_evs) own) [
        | inl (x, h) ↦ inl (x, In-append_right (x, e) p.pairs _ h)
        | inr h ↦ inr (In-append_right e p.m_only _ h)
      ])
  types-KeptBy e (et ∷ ets) p m (inr i) = types-KeptBy e ets _ m i

  types_of-In : (e : Event) → In e (t_evs ++ m_evs) → In e.event_type (types_of t_evs m_evs)
  types_of-In e m =
      In-of_keep (λ et. any (λ x. same_type x.event_type et) (t_evs ++ m_evs)) e.event_type
        all_types
        (any-In (λ x. same_type x.event_type e.event_type) e (t_evs ++ m_evs)
          (same_type_refl e.event_type) m)
        (all_types-In e.event_type)

-- pair_group pairs only events of one type, and loses none: each event of the transcript's side is
-- the first of a pair or left over on that side, and each event of the minutes' side the second of a
-- pair or left over on its side.
pub pair_group-Kept :
    (t_evs m_evs : List Event)
    → All IsAlike (pair_group t_evs m_evs).pairs
      × ((e : Event) → In e t_evs → Kept e (pair_group t_evs m_evs))
      × ((e : Event) → In e m_evs → KeptBy e (pair_group t_evs m_evs))
unfolding pair_group
pair_group-Kept t_evs m_evs = (
  pair_types-IsAlike t_evs m_evs (types_of t_evs m_evs) _ tt,
  λ e m.
      types-Kept t_evs m_evs e (types_of t_evs m_evs) _ m
        (types_of-In t_evs m_evs e (In-append_left e t_evs m_evs m)),
  λ e m.
      types-KeptBy t_evs m_evs e (types_of t_evs m_evs) _ m
        (types_of-In t_evs m_evs e (In-append_right e t_evs m_evs m)),
)
