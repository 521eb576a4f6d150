-- ===== src/Transcripts/Segments/IndexPoints.antt =====
-- ai/transcripts/pipeline.py: the item that assign_index_points gives a segment.
use docket_pub.Prelude.{
  ℕ, ◌≡◌, ◌≢◌, refl, Bool, true, false, ◌&&◌, Option, none, some, List, [], ◌∷◌, arith, ◌==◌, All,
  In, In-keep, All-keep, All-map, keep, inl, inr, ◌⊎◌, Bool-cases, if◌then◌else◌,
}
use docket_pub.Transcripts.Types.{Segment, AgendaItem}
use docket_pub.Transcripts.Segments.{starts_by, latest, first_item, item_at, assign_segment}

abbrev IsLatest : List AgendaItem → Option AgendaItem → Type 0
IsLatest as' none = as' ≡ []
IsLatest as' (some a) = In a as' × All (λ b. latest a b ≡ true) as'

latest_refl : (a : AgendaItem) → latest a a ≡ true
latest_refl a = ground arith

latest_total : (a b : AgendaItem) → latest a b ≡ false → latest b a ≡ true
latest_total a b h = ground arith

latest_trans : (a b c : AgendaItem) → latest a b ≡ true → latest b c ≡ true → latest a c ≡ true
latest_trans a b c h k = ground arith

first_item-IsLatest : (items : List AgendaItem) → IsLatest items (first_item items)
unfolding first_item
first_item-IsLatest [] = refl
first_item-IsLatest (a ∷ items) = step (first_item items) (first_item-IsLatest items)
  where
    step :
        (o : Option AgendaItem)
        → IsLatest items o
        → IsLatest
            (a ∷ items)
            (elim o [ none ↦ some a | some b ↦ if latest a b then some a else some b ])
    step none h = rw h (inl refl, (latest_refl a, tt))
    step (some b) h = elim (Bool-cases (latest a b)) [
      | inl e ↦ rw e (
        inl refl,
        (
          latest_refl a,
          All-map (λ c. latest b c ≡ true) (λ c. latest a c ≡ true) items
              (λ c. latest_trans a b c e) h.1,
        ),
      )
      | inr e ↦ rw e (inr h.0, (latest_total a b e, h.1))
    ]

module _ (agenda : List AgendaItem) (meeting start_s : ℕ) where
  abbrev candidate : AgendaItem → Bool
  candidate a = a.meeting_id == meeting && starts_by start_s a.video_timestamp_seconds

  abbrev pub Assigned : Option AgendaItem → Type 0
  Assigned none = All (λ a. candidate a ≡ false) agenda
  Assigned (some a) =
      In a agenda × (candidate a ≡ true) × All (λ b. candidate b ≡ true → latest a b ≡ true) agenda

  All-none :
      (items : List AgendaItem) → keep candidate items ≡ [] → All (λ a. candidate a ≡ false) items
  All-none [] h = tt
  All-none (x ∷ xs) h = elim (Bool-cases (candidate x)) [
    | inl e ↦ cc (rw e at h)
    | inr e ↦ (e, All-none xs (rw e at h))
  ]

  -- A segment's item is the one of its meeting with the latest index point at or before the segment's
  -- start, the lowest id first; there is none exactly for a segment before every index point.
  pub item_at-Assigned : Assigned (item_at agenda meeting start_s)
  unfolding item_at
  item_at-Assigned = step (first_item chosen) (first_item-IsLatest chosen)
    where
      chosen : List AgendaItem
      chosen = keep candidate agenda

      step : (o : Option AgendaItem) → IsLatest chosen o → Assigned o
      step none h = All-none agenda h
      step (some a) h =
          let m = In-keep candidate a agenda h.0 in
          (m.0, m.1, All-keep (λ b. latest a b ≡ true) candidate agenda h.1)

-- assign_index_points changes only speech of this transcript that has no assignment yet: silence, the
-- segments of other transcripts and every segment with an assignment, by hand or otherwise, stay.
pub only_unassigned_change :
    (agenda : List AgendaItem) (transcript meeting : ℕ) (s : Segment)
    → (s.transcript_id ≢ transcript) ⊎ (s.is_silence ≡ true) ⊎ (s.assignment_method ≢ none)
    → assign_segment agenda transcript meeting s ≡ s
unfolding assign_segment
only_unassigned_change agenda transcript meeting s h = ground arith
