-- ===== src/Adoption/Parse/Window.antt =====
-- services/minutes_adoption.py: what extract_adoption_targets may return.
use docket_pub.Prelude.{
  ℕ, zero, suc, ◌+◌, ◌≤◌, reverse, &&_parts, leb→le, ◌≡◌, refl, ap, subst, true, false, not, inl,
  inr, Option, none, some, List, [], ◌∷◌, Text, leb, any, All, Bool-cases, Option-cases, arith,
}
use docket_pub.Votes.Words.{Unicode}
use docket_pub.Adoption.Types.{Date, is_before, is_upto, is_date, DateSpan}
use docket_pub.Adoption.Tokens.{tokens_from}
use docket_pub.Adoption.Parse.{
  Entry, Reading, dates_of, date_at, range_end, is_range_end, span_to, cons_span, spans_from,
  spans_of, months_back, is_eligible, read_tokens, parse_date_spans, all_eligible, before_not_ready,
  begun, extract_adoption_targets,
}

-- Two dates of the calendar in order.
unfoldable pub IsSpan : DateSpan → Type 0
IsSpan s = (is_date s.start ≡ true) × (is_date s.end ≡ true) × (is_upto s.start s.end ≡ true)

AllGiven : {A : Type 0} → (A → Type 0) → Option (List A) → Type 0
AllGiven P none = Unit
AllGiven P (some xs) = All P xs

the : Date → Option Date → Date
the d none = d
the d (some e) = e

AllGiven-some :
    {A : Type 0} (P : A → Type 0) (o : Option (List A)) (xs : List A)
    → AllGiven P o
    → o ≡ some xs
    → All P xs
unfolding AllGiven
AllGiven-some P o xs h e = subst (AllGiven P) e h

dates_of-dates : (es : List Entry) → AllGiven (λ d. is_date d ≡ true) (dates_of es)
unfolding dates_of AllGiven
dates_of-dates [] = tt
dates_of-dates (e ∷ es) = elim (Option-cases e.year) [
  | inl q ↦ rw (dates_of, q) tt
  | inr (y, q) ↦ elim (Option-cases (dates_of es)) [
    | inl r ↦ rw (dates_of, q, r) tt
    | inr (ds, r) ↦
        elim (Bool-cases (is_date (record { year = y; month = e.month; day = e.day }))) [
          | inl k ↦
              rw (dates_of, q, r, k)
                (k, AllGiven-some (λ d. is_date d ≡ true) (dates_of es) ds (dates_of-dates es) r)
          | inr k ↦ rw (dates_of, q, r, k) tt
        ]
  ]
]

date_at-All :
    (P : Date → Type 0) (ds : List Date) (i : ℕ) (d : Date) → All P ds → date_at ds i ≡ some d → P d
unfolding the
date_at-All P [] i d h e = absurd (cc e)
date_at-All P (x ∷ xs) zero d h e = subst P (ap (the x) e) h.0
date_at-All P (x ∷ xs) (suc i) d h e = date_at-All P xs i d h.1 e

Given : {A : Type 0} → (A → Type 0) → Option A → Type 0
Given P none = Unit
Given P (some a) = P a

span_to-IsSpan : (a b : Date) → is_date a ≡ true → is_date b ≡ true → Given IsSpan (span_to a b)
unfolding span_to Given IsSpan
span_to-IsSpan a b h k = elim (Bool-cases (is_before b a)) [
  | inl e ↦ rw (span_to, e) tt
  | inr e ↦ rw (span_to, e) (h, k, rw e refl)
]

not_before_itself : (d : Date) → is_upto d d ≡ true
unfolding is_before
not_before_itself d = ground arith

single-IsSpan : (d : Date) → is_date d ≡ true → IsSpan (record { start = d; end = d })
unfolding IsSpan
single-IsSpan d h = (h, h, not_before_itself d)

cons_span-IsSpan :
    (o : Option DateSpan) (ss : Option (List DateSpan))
    → Given IsSpan o
    → AllGiven IsSpan ss
    → AllGiven IsSpan (cons_span o ss)
unfolding Given AllGiven
cons_span-IsSpan none ss h k = tt
cons_span-IsSpan (some s) none h k = tt
cons_span-IsSpan (some s) (some ss) h k = (h, k)

spans_from-IsSpan :
    (pairs : List (ℕ × ℕ)) (dates : List Date) (i : ℕ) (ds : List Date)
    → All (λ d. is_date d ≡ true) dates
    → All (λ d. is_date d ≡ true) ds
    → AllGiven IsSpan (spans_from pairs dates i ds)
unfolding spans_from AllGiven Given IsSpan
spans_from-IsSpan pairs dates i [] h k = tt
spans_from-IsSpan pairs dates i (d ∷ ds) h k =
    let later = spans_from-IsSpan pairs dates (i + 1) ds h k.1 in
    elim (Option-cases (range_end i pairs)) [
      | inl q ↦ elim (Bool-cases (is_range_end i pairs)) [
        | inl r ↦ rw (spans_from, q, r) later
        | inr r ↦
            rw (spans_from, q, r)
              (cons_span-IsSpan (some (record { start = d; end = d })) _ (single-IsSpan d k.0)
                later)
      ]
      | inr (j, q) ↦ elim (Option-cases (date_at dates j)) [
        | inl r ↦ rw (spans_from, q, r) tt
        | inr (end, r) ↦
            rw (spans_from, q, r)
              (cons_span-IsSpan (span_to d end) _
                (span_to-IsSpan d end k.0 (date_at-All (λ x. is_date x ≡ true) dates j end h r))
                later)
      ]
    ]

spans_of-IsSpan : (r : Reading) → AllGiven IsSpan (spans_of r)
unfolding spans_of AllGiven
spans_of-IsSpan r = of_entries r.entries
  where
    of_entries :
        (es : List Entry)
        → AllGiven IsSpan (elim es as (λ _. Option (List DateSpan)) [
          | [] ↦ none
          | e ∷ fs ↦ elim (dates_of (reverse (e ∷ fs))) [
            | none ↦ none
            | some dates ↦ spans_from r.range_pairs dates 0 dates
          ]
        ])
    of_entries [] = tt
    of_entries (e ∷ fs) = elim (Option-cases (dates_of (reverse (e ∷ fs)))) [
      | inl q ↦ rw q tt
      | inr (dates, q) ↦
          let h =
            AllGiven-some (λ d. is_date d ≡ true) (dates_of (reverse (e ∷ fs))) dates
              (dates_of-dates (reverse (e ∷ fs))) q in
          rw q (spans_from-IsSpan r.range_pairs dates 0 dates h h)
    ]

All-eligible :
    (meeting : Date) (ss : List DateSpan)
    → any (λ s. not (is_eligible meeting s)) ss ≡ false
    → All (λ s. is_eligible meeting s ≡ true) ss
All-eligible meeting [] h = tt
All-eligible meeting (s ∷ ss) h = elim (Bool-cases (is_eligible meeting s)) [
  | inl e ↦ (e, All-eligible meeting ss (rw e at h))
  | inr e ↦ absurd (cc (rw e at h))
]

-- A span that the sweep may act on: two dates in order, the later one before the adopting meeting,
-- the earlier one at most 24 months before it.
unfoldable pub IsTarget : (meeting : Date) → DateSpan → Type 0
IsTarget meeting s =
    (is_date s.start ≡ true)
    × (is_date s.end ≡ true)
    × (is_upto s.start s.end ≡ true)
    × (is_before s.end meeting ≡ true)
    × (months_back meeting s.start ≤ 24)

target :
    (meeting : Date) (s : DateSpan) → IsSpan s → is_eligible meeting s ≡ true → IsTarget meeting s
unfolding IsSpan IsTarget is_eligible
target meeting s (h, k, l) e =
    let parts = &&_parts (is_before s.end meeting) (leb (months_back meeting s.start) 24) e in
    (h, k, l, parts.0, leb→le (months_back meeting s.start) 24 parts.1)

parsed-IsSpan :
    (o : Option Reading) → AllGiven IsSpan (elim o [ none ↦ none | some r ↦ spans_of r ])
unfolding AllGiven
parsed-IsSpan none = tt
parsed-IsSpan (some r) = spans_of-IsSpan r

checked-IsTarget :
    (meeting : Date) (o : Option (List DateSpan))
    → AllGiven IsSpan o
    → AllGiven (IsTarget meeting) (elim o [ none ↦ none | some ss ↦ all_eligible meeting ss ])
unfolding AllGiven all_eligible
checked-IsTarget meeting none h = tt
checked-IsTarget meeting (some ss) h =
    elim (Bool-cases (any (λ s. not (is_eligible meeting s)) ss)) [
      | inl e ↦ rw (all_eligible, e) tt
      | inr e ↦ rw (all_eligible, e) (both_ways ss h (All-eligible meeting ss e))
    ]
  where
    both_ways :
        (xs : List DateSpan)
        → All IsSpan xs
        → All (λ s. is_eligible meeting s ≡ true) xs
        → All (IsTarget meeting) xs
    both_ways [] p q = tt
    both_ways (x ∷ xs) p q = (target meeting x p.0 q.0, both_ways xs p.1 q.1)

module _ (u : Unicode) (value : ℕ → ℕ) where
  -- Every target that a title yields is a span of calendar dates in order, which ends before the
  -- adopting meeting and begins at most 24 months before its month.
  pub targets_in_window :
      (title : Text) (meeting : Date) (spans : List DateSpan)
      → extract_adoption_targets u value title meeting ≡ some spans
      → All (IsTarget meeting) spans
  unfolding extract_adoption_targets parse_date_spans
  targets_in_window title meeting spans h =
      AllGiven-some (IsTarget meeting) (extract_adoption_targets u value title meeting) spans
        (checked-IsTarget meeting (parse_date_spans u value title meeting) (
          parsed-IsSpan (
            read_tokens u value meeting
              (tokens_from u value 0 true [] (before_not_ready u value false title)) begun)))
        h
