-- ===== src/Transcripts/Ranges/LastOpening.antt =====
-- ai/transcripts/events.py: which item the range updates of reassign_segments_from_events leave.
use docket_pub.Prelude.{
  ℕ, ◌≤◌, ◌<◌, ◌≡◌, refl, ap, ◌∙◌, Bool, false, ◌&&◌, not, Option, none, some, List, [], ◌∷◌, map,
  leb, ltb, if◌then◌else◌, All, All-map, arith, Bool-cases, ◌⊎◌, inl, inr,
}
use docket_pub.Transcripts.Types.{Segment}
use docket_pub.Transcripts.Ranges.{
  EventRow, Opening, openings, insert, sort, adjourn_seq, next_at, range_end, is_assignable, assign,
  write_range, write_opening, write_ranges, reassign_segments_from_events,
}

-- The last opening at or before a segment.
abbrev pub last_open : List Opening → ℕ → Option Opening
last_open [] n = none
last_open (o ∷ os) n = elim (last_open os n) [
  | some p ↦ some p
  | none ↦ if leb o.at n then some o else none
]

-- Whether the meeting was adjourned between the opening and the segment.
abbrev pub is_over : Option ℕ → ℕ → ℕ → Bool
is_over none lo n = false
is_over (some a) lo n = ltb lo a && leb a n

abbrev IsSorted : List Opening → Type 0
IsSorted [] = Unit
IsSorted (o ∷ os) = All (λ p. o.at ≤ p.at) os × IsSorted os

insert-All :
    (P : Opening → Type 0) (o : Opening) (os : List Opening) → P o → All P os → All P (insert o os)
unfolding insert
insert-All P o [] h hs = (h, tt)
insert-All P o (p ∷ ps) h hs = elim (Bool-cases (leb o.at p.at)) [
  | inl e ↦ rw e (h, hs)
  | inr e ↦ rw e (hs.0, insert-All P o ps h hs.1)
]

insert-IsSorted : (o : Opening) (os : List Opening) → IsSorted os → IsSorted (insert o os)
unfolding insert
insert-IsSorted o [] h = (tt, tt)
insert-IsSorted o (p ∷ ps) h = elim (Bool-cases (leb o.at p.at)) [
  | inl e ↦
      let le : o.at ≤ p.at = ground (arith, e) in
      rw e (
        (le, All-map (λ q. p.at ≤ q.at) (λ q. o.at ≤ q.at) ps (λ q l. omega (arith, le, l)) h.0),
        h,
      )
  | inr e ↦
      let le : p.at ≤ o.at = ground (arith, e) in
      rw e (insert-All (λ q. p.at ≤ q.at) o ps le h.0, insert-IsSorted o ps h.1)
]

sort-IsSorted : (os : List Opening) → IsSorted (sort os)
unfolding sort
sort-IsSorted [] = tt
sort-IsSorted (o ∷ os) = insert-IsSorted o (sort os) (sort-IsSorted os)

module _ (transcript : ℕ) (adjourned : Option ℕ) where
  -- What a segment is left with, by the last opening before it.
  abbrev pub placed : Option Opening → Segment → Segment
  placed none s = s
  placed (some o) s = elim o.refs [
    | [] ↦ s
    | item ∷ [] ↦
        if is_assignable transcript s && not (is_over adjourned o.at s.seq)
        then assign item s
        else s
    | _ ∷ _ ∷ _ ↦ s
  ]

  -- The loop on one segment.
  abbrev walk : List Opening → Segment → Segment
  walk [] s = s
  walk (o ∷ os) s = walk os (write_opening transcript adjourned o (next_at os) s)

  write_ranges-walk :
      (os : List Opening) (ss : List Segment)
      → write_ranges transcript adjourned os ss ≡ map (walk os) ss
  unfolding write_ranges
  write_ranges-walk [] [] = refl
  write_ranges-walk [] (s ∷ ss) = ap (λ (r : List Segment). s ∷ r) (write_ranges-walk [] ss)
  write_ranges-walk (o ∷ os) ss = write_ranges-walk os _ ∙ map-walk ss
    where
      map-walk :
          (ss : List Segment)
          → map (walk os) (map (write_opening transcript adjourned o (next_at os)) ss)
            ≡ map (walk (o ∷ os)) ss
      map-walk [] = refl
      map-walk (s ∷ ss) = ap (λ (r : List Segment). walk (o ∷ os) s ∷ r) (map-walk ss)

  -- An opening behind the segment leaves it.
  write_opening_later :
      (o : Opening) (next : Option ℕ) (s : Segment)
      → s.seq < o.at
      → write_opening transcript adjourned o next s ≡ s
  unfolding write_opening write_range
  write_opening_later o next s lt = ground arith

  -- So does one whose next opening is not behind the segment.
  write_opening_over :
      (o : Opening) (h : ℕ) (s : Segment)
      → h ≤ s.seq
      → write_opening transcript adjourned o (some h) s ≡ s
  unfolding write_opening write_range range_end
  write_opening_over o h s le = ground arith

  -- The opening whose range holds the segment.
  write_opening-placed :
      (o : Opening) (next : Option ℕ) (s : Segment)
      → o.at ≤ s.seq
      → (next ≡ none) ⊎ ((h : ℕ) × (next ≡ some h) × (s.seq < h))
      → write_opening transcript adjourned o next s ≡ placed (some o) s
  unfolding write_opening write_range range_end
  write_opening-placed o next s le h = ground arith

  placed_seq : (o : Option Opening) (s : Segment) → (placed o s).seq ≡ s.seq
  placed_seq o s = ground arith

  walk_later : (os : List Opening) (s : Segment) → All (λ p. s.seq < p.at) os → walk os s ≡ s
  walk_later [] s h = refl
  walk_later (o ∷ os) s h = rw (write_opening_later o (next_at os) s h.0) (walk_later os s h.1)

  -- What next_at says when every opening is behind the segment.
  next-later :
      (os : List Opening) (n : ℕ)
      → All (λ p. n < p.at) os
      → (next_at os ≡ none) ⊎ ((h : ℕ) × (next_at os ≡ some h) × (n < h))
  next-later [] n h = inl refl
  next-later (o ∷ os) n h = inr (o.at, refl, h.0)

  -- Either every opening is behind the segment, or one is not, and then neither is the first.
  abbrev Opens : List Opening → ℕ → Type 0
  Opens os n =
      ((last_open os n ≡ none) × All (λ p. n < p.at) os)
      ⊎ ((p : Opening) × (h : ℕ) × (last_open os n ≡ some p) × (next_at os ≡ some h) × (h ≤ n))

  open_cases : (os : List Opening) (n : ℕ) → IsSorted os → Opens os n
  open_cases [] n h = inl (refl, tt)
  open_cases (o ∷ os) n h = elim (open_cases os n h.1) [
    | inl (e, all) ↦ elim (Bool-cases (leb o.at n)) [
      | inl q ↦ inr (o, o.at, rw (e, q) refl, refl, ground (arith, q))
      | inr q ↦ inl (rw (e, q) refl, (ground (arith, q), all))
    ]
    | inr (p, k, e, f, le) ↦ inr (p, o.at, rw e refl, refl, first_le os k h.0 f le)
  ]
    where
      first_le :
          (os : List Opening) (k : ℕ)
          → All (λ p. o.at ≤ p.at) os
          → next_at os ≡ some k
          → k ≤ n
          → o.at ≤ n
      first_le [] k a f le = ground arith
      first_le (p ∷ ps) k a f le = ground (arith, a.0)

  walk-placed :
      (os : List Opening) (s : Segment) → IsSorted os → walk os s ≡ placed (last_open os s.seq) s
  walk-placed [] s h = refl
  walk-placed (o ∷ os) s h = elim (open_cases os s.seq h.1) [
    | inl (e, all) ↦ elim (Bool-cases (leb o.at s.seq)) [
      | inl q ↦
          let here =
            write_opening-placed o (next_at os) s (ground (arith, q)) (next-later os s.seq all) in
          let same = placed_seq (some o) s in
          rw (e, q, here)
            (walk_later os (placed (some o) s) (
              All-map (λ p. s.seq < p.at) (λ p. (placed (some o) s).seq < p.at) os
                (λ p l. omega (arith, same, l)) all))
      | inr q ↦
          rw (e, q, write_opening_later o (next_at os) s (ground (arith, q))) (walk_later os s all)
    ]
    | inr (p, k, e, f, le) ↦
        rw (e, f, write_opening_over o k s le)
          (walk-placed os s h.1 ∙ ap (λ (x : Option Opening). placed x s) e)
  ]

-- Re-assigning gives each segment by itself the item of the last opening at or before it, if that
-- opening names one item, the meeting was not adjourned between the two, and the segment is speech
-- of this transcript that nobody assigned by hand; every other segment keeps what it has.
pub reassign-placed :
    (transcript : ℕ) (rows : List EventRow) (ss : List Segment)
    → reassign_segments_from_events transcript rows ss
      ≡ map
          (λ s. placed transcript (adjourn_seq rows) (last_open (sort (openings rows)) s.seq) s)
          ss
unfolding reassign_segments_from_events
reassign-placed transcript rows ss =
    write_ranges-walk transcript (adjourn_seq rows) (sort (openings rows)) ss ∙ each ss
  where
    each :
        (ss : List Segment)
        → map (walk transcript (adjourn_seq rows) (sort (openings rows))) ss
          ≡ map
              (λ s. placed transcript (adjourn_seq rows) (last_open (sort (openings rows)) s.seq) s)
              ss
    each [] = refl
    each (s ∷ ss) =
        rw
          (walk-placed transcript (adjourn_seq rows) (sort (openings rows)) s
            (sort-IsSorted (openings rows)))
          (ap
            (λ (r : List Segment).
              placed transcript (adjourn_seq rows) (last_open (sort (openings rows)) s.seq) s ∷ r)
            (each ss))
