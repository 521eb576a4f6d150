-- ===== src/Adoption/Sweep/Again.antt =====
-- services/minutes_adoption.py: a second sweep over the same agenda items.
use docket_pub.Prelude.{
  ℕ, ◌≡◌, refl, sym, ap, ◌∙◌, subst, Bool, true, false, ◌&&◌, some, List, [], ◌∷◌, ◌++◌, map, ltb,
  length, keep, All, All-map, Bool-cases, Option-cases, inl, inr, arith, if◌then◌else◌,
}
use docket_pub.Votes.Words.{Unicode}
use docket_pub.Adoption.Types.{Date, DateSpan, is_range, is_before}
use docket_pub.Adoption.Tokens.{is_adoption_title}
use docket_pub.Adoption.Parse.{extract_adoption_targets}
use docket_pub.Adoption.Parse.Window.{IsTarget, targets_in_window}
use docket_pub.Adoption.Sweep.{
  Meeting, Candidate, Swept, is_unadopted, adopted_on, flip_where, is_in_range, is_named, is_chosen,
  sweep_span, sweep_spans, sweep_candidate, sweep_candidates,
}
use docket_pub.Adoption.Sweep.Flips.{
  Step, same, flip, Steps, done, next, sweep_span-Steps, sweep_spans-Steps, sweep_candidates-Steps,
}

module _ (city : ℕ) where
  -- The rows that a span names.
  several : Date → List Meeting → Bool
  several d ms = ltb 1 (length (keep (is_named city d) ms))

  names : (adopting : Date) → DateSpan → List Meeting → Meeting → Bool
  names adopting s ms =
      if is_range s
      then is_in_range city adopting s
      else is_chosen city s.start (several s.start ms)

  -- No row that the span names is left to adopt.
  Settled : (adopting : Date) → List Meeting → DateSpan → Type 0
  Settled adopting ms s = All (λ m. (names adopting s ms m && is_unadopted m) ≡ false) ms

  sweep_span_flips :
      (adopting : Date) (s : DateSpan) (w : Swept)
      → sweep_span city adopting s w ≡ flip_where (names adopting s w.meetings) adopting w
  unfolding sweep_span names several
  sweep_span_flips adopting s w = elim (Bool-cases (is_range s)) [
    | inl e ↦ rw (sweep_span, names, e) refl
    | inr e ↦ rw (sweep_span, names, e) refl
  ]

  -- Rows that none of a set is left of.
  nothing_kept :
      (p : Meeting → Bool) (ms : List Meeting) → All (λ m. p m ≡ false) ms → keep p ms ≡ []
  nothing_kept p [] h = refl
  nothing_kept p (m ∷ ms) h = rw (h.0) (nothing_kept p ms h.1)

  nothing_mapped :
      (p : Meeting → Bool) (f : Meeting → Meeting) (ms : List Meeting)
      → All (λ m. p m ≡ false) ms
      → map (λ m. if p m then f m else m) ms ≡ ms
  nothing_mapped p f [] h = refl
  nothing_mapped p f (m ∷ ms) h = rw (h.0) (ap (λ r. m ∷ r) (nothing_mapped p f ms h.1))

  append_nothing : (xs : List ℕ) → xs ++ [] ≡ xs
  append_nothing [] = refl
  append_nothing (x ∷ xs) = ap (λ r. x ∷ r) (append_nothing xs)

  -- Both tables stay.
  abbrev Rests : Swept → Swept → Type 0
  Rests w w' = (w'.meetings ≡ w.meetings) × (w'.flipped ≡ w.flipped)

  flip_where-Rests :
      (p : Meeting → Bool) (d : Date) (w : Swept)
      → All (λ m. (p m && is_unadopted m) ≡ false) w.meetings
      → Rests w (flip_where p d w)
  unfolding flip_where
  flip_where-Rests p d w h = (
    nothing_mapped (λ m. p m && is_unadopted m) (adopted_on d) w.meetings h,
    ap (λ (r : List Meeting). w.flipped ++ map (λ m. m.id) r)
          (nothing_kept (λ m. p m && is_unadopted m) w.meetings h)
        ∙ append_nothing w.flipped,
  )

  sweep_span-Rests :
      (adopting : Date) (s : DateSpan) (w : Swept)
      → Settled adopting w.meetings s
      → Rests w (sweep_span city adopting s w)
  unfolding Settled
  sweep_span-Rests adopting s w h =
      subst (Rests w) (sym (sweep_span_flips adopting s w))
        (flip_where-Rests (names adopting s w.meetings) adopting w h)

  -- What a step keeps.
  same_named : (d : Date) (m n : Meeting) → Step city m n → is_named city d n ≡ is_named city d m
  unfolding is_named
  same_named d m n same = refl
  same_named d m n (flip x _ _ _ _) = refl

  several-Steps :
      (d : Date) (ms ns : List Meeting)
      → Steps city ms ns
      → length (keep (is_named city d) ns) ≡ length (keep (is_named city d) ms)
  several-Steps d [] [] done = refl
  several-Steps d [] (n ∷ ns) x = elim x [ ]
  several-Steps d (m ∷ ms) [] x = elim x [ ]
  several-Steps d (m ∷ ms) (n ∷ ns) (next s t) = elim (Bool-cases (is_named city d m)) [
    | inl e ↦ let f = same_named d m n s ∙ e in rw (e, f, several-Steps d ms ns t) refl
    | inr e ↦ let f = same_named d m n s ∙ e in rw (e, f) (several-Steps d ms ns t)
  ]

  still_out :
      (p : Meeting → Bool)
      → ((m n : Meeting) → Step city m n → p n ≡ p m)
      → (m n : Meeting) → Step city m n
      → (p m && is_unadopted m) ≡ false
      → (p n && is_unadopted n) ≡ false
  unfolding is_unadopted
  still_out p k m n same h = h
  still_out p k m n (flip d _ _ _ _) h = ground arith

  left_out :
      (p : Meeting → Bool)
      → ((m n : Meeting) → Step city m n → p n ≡ p m)
      → (ms ns : List Meeting) → Steps city ms ns
      → All (λ m. (p m && is_unadopted m) ≡ false) ms
      → All (λ m. (p m && is_unadopted m) ≡ false) ns
  left_out p k [] [] x h = tt
  left_out p k [] (n ∷ ns) x h = elim x [ ]
  left_out p k (m ∷ ms) [] x h = elim x [ ]
  left_out p k (m ∷ ms) (n ∷ ns) (next s t) h = (still_out p k m n s h.0, left_out p k ms ns t h.1)

  in_range-Step :
      (adopting : Date) (s : DateSpan) (m n : Meeting)
      → Step city m n
      → is_in_range city adopting s n ≡ is_in_range city adopting s m
  unfolding is_in_range
  in_range-Step adopting s m n same = refl
  in_range-Step adopting s m n (flip d _ _ _ _) = refl

  chosen-Step :
      (d : Date) (b : Bool) (m n : Meeting)
      → Step city m n
      → is_chosen city d b n ≡ is_chosen city d b m
  unfolding is_chosen is_named
  chosen-Step d b m n same = refl
  chosen-Step d b m n (flip x _ _ _ _) = refl

  names-Step :
      (adopting : Date) (s : DateSpan) (ms : List Meeting) (m n : Meeting)
      → Step city m n
      → names adopting s ms n ≡ names adopting s ms m
  unfolding names
  names-Step adopting s ms m n k = elim (Bool-cases (is_range s)) [
    | inl e ↦ rw (names, e) (in_range-Step adopting s m n k)
    | inr e ↦ rw (names, e) (chosen-Step s.start (several s.start ms) m n k)
  ]

  names-Steps :
      (adopting : Date) (s : DateSpan) (ms ns : List Meeting)
      → Steps city ms ns
      → (m : Meeting) → names adopting s ns m ≡ names adopting s ms m
  unfolding names several
  names-Steps adopting s ms ns k m =
      ap
        (λ (c : ℕ).
          (if is_range s then is_in_range city adopting s else is_chosen city s.start (ltb 1 c)) m)
        (several-Steps s.start ms ns k)

  Settled-Steps :
      (adopting : Date) (s : DateSpan) (ms ns : List Meeting)
      → Steps city ms ns
      → Settled adopting ms s
      → Settled adopting ns s
  unfolding Settled
  Settled-Steps adopting s ms ns k h =
      All-map _ _ ns (λ m q. ap (λ b. b && is_unadopted m) (names-Steps adopting s ms ns k m) ∙ q)
        (left_out (names adopting s ms) (names-Step adopting s ms) ms ns k h)

  -- Behind an UPDATE no row it names is left.
  flipped_out :
      (p : Meeting → Bool) (d : Date)
      → ((m : Meeting) → p (adopted_on d m) ≡ p m)
      → (ms : List Meeting)
      → All
          (λ m. (p m && is_unadopted m) ≡ false)
          (map (λ m. if p m && is_unadopted m then adopted_on d m else m) ms)
  unfolding is_unadopted
  flipped_out p d k [] = tt
  flipped_out p d k (m ∷ ms) = elim (Bool-cases (p m && is_unadopted m)) [
    | inl e ↦ rw e (ground arith, flipped_out p d k ms)
    | inr e ↦ rw e (e, flipped_out p d k ms)
  ]

  names_adopted :
      (adopting d : Date) (s : DateSpan) (ms : List Meeting) (m : Meeting)
      → names adopting s ms (adopted_on d m) ≡ names adopting s ms m
  unfolding names is_in_range is_chosen is_named
  names_adopted adopting d s ms m = elim (Bool-cases (is_range s)) [
    | inl e ↦ rw (names, e) refl
    | inr e ↦ rw (names, e) refl
  ]

  sweep_span-Settled :
      (adopting : Date) (s : DateSpan) (w : Swept)
      → is_before s.end adopting ≡ true
      → Settled adopting (sweep_span city adopting s w).meetings s
  unfolding Settled flip_where
  sweep_span-Settled adopting s w b =
      All-map _ _ (sweep_span city adopting s w).meetings
        (λ m q.
          ap (λ c. c && is_unadopted m)
            (names-Steps adopting s w.meetings _ (sweep_span-Steps city adopting s w b) m)
          ∙ q)
        (subst
          (λ (v : Swept).
            All (λ m. (names adopting s w.meetings m && is_unadopted m) ≡ false) v.meetings)
          (sym (sweep_span_flips adopting s w))
          (flipped_out (names adopting s w.meetings) adopting
            (names_adopted adopting adopting s w.meetings) w.meetings))

  spans-Settled :
      (adopting : Date) (ss : List DateSpan) (w : Swept)
      → All (IsTarget adopting) ss
      → All (Settled adopting (sweep_spans city adopting ss w).meetings) ss
  unfolding sweep_spans IsTarget
  spans-Settled adopting [] w h = tt
  spans-Settled adopting (s ∷ ss) w ((_, _, _, b, _), k) = (
    Settled-Steps adopting s _ _ (sweep_spans-Steps city adopting ss _ k)
        (sweep_span-Settled adopting s w b),
    spans-Settled adopting ss _ k,
  )

  Rests-trans : (a b c : Swept) → Rests a b → Rests b c → Rests a c
  Rests-trans a b c (p, q) (r, s) = (r ∙ p, s ∙ q)

  spans-Rests :
      (adopting : Date) (ss : List DateSpan) (w : Swept)
      → All (Settled adopting w.meetings) ss
      → Rests w (sweep_spans city adopting ss w)
  unfolding sweep_spans
  spans-Rests adopting [] w h = (refl, refl)
  spans-Rests adopting (s ∷ ss) w (h, k) =
      let r = sweep_span-Rests adopting s w h in
      Rests-trans w _ _ r (
        spans-Rests adopting ss _
          (subst (λ (ms : List Meeting). All (Settled adopting ms) ss) (sym r.0) k))

module _ (u : Unicode) (value : ℕ → ℕ) (city : ℕ) where
  -- No row that a candidate's title names is left to adopt.
  CandidateSettled : List Meeting → Candidate → Type 0
  CandidateSettled ms c =
      (spans : List DateSpan)
      → is_adoption_title u value c.title ≡ true
      → extract_adoption_targets u value c.title c.adoption_meeting_date ≡ some spans
      → All (Settled city c.adoption_meeting_date ms) spans

  candidate-Rests :
      (c : Candidate) (w : Swept)
      → CandidateSettled w.meetings c
      → Rests city w (sweep_candidate u value city c w)
  unfolding sweep_candidate CandidateSettled
  candidate-Rests c w h = elim (Bool-cases (is_adoption_title u value c.title)) [
    | inr e ↦ rw (sweep_candidate, e) (refl, refl)
    | inl e ↦
        elim (Option-cases (extract_adoption_targets u value c.title c.adoption_meeting_date)) [
          | inl q ↦ rw (sweep_candidate, e, q) (refl, refl)
          | inr (spans, q) ↦
              rw (sweep_candidate, e, q)
                (spans-Rests city c.adoption_meeting_date spans w (h spans e q))
        ]
  ]

  candidate-Settled :
      (c : Candidate) (w : Swept) → CandidateSettled (sweep_candidate u value city c w).meetings c
  unfolding sweep_candidate CandidateSettled
  candidate-Settled c w spans e q =
      rw (sweep_candidate, e, q)
        (spans-Settled city c.adoption_meeting_date spans w
          (targets_in_window u value c.title c.adoption_meeting_date spans q))

  CandidateSettled-Steps :
      (c : Candidate) (ms ns : List Meeting)
      → Steps city ms ns
      → CandidateSettled ms c
      → CandidateSettled ns c
  unfolding CandidateSettled
  CandidateSettled-Steps c ms ns k h spans e q =
      All-map _ _ spans (λ s p. Settled-Steps city c.adoption_meeting_date s ms ns k p)
        (h spans e q)

  candidates-Settled :
      (cs : List Candidate) (w : Swept)
      → All (CandidateSettled (sweep_candidates u value city cs w).meetings) cs
  unfolding sweep_candidates
  candidates-Settled [] w = tt
  candidates-Settled (c ∷ cs) w = (
    CandidateSettled-Steps c _ _ (sweep_candidates-Steps u value city cs _) (candidate-Settled c w),
    candidates-Settled cs _,
  )

  candidates-Rests :
      (cs : List Candidate) (w : Swept)
      → All (CandidateSettled w.meetings) cs
      → Rests city w (sweep_candidates u value city cs w)
  unfolding sweep_candidates
  candidates-Rests [] w h = (refl, refl)
  candidates-Rests (c ∷ cs) w (h, k) =
      let r = candidate-Rests c w h in
      Rests-trans city w _ _ r (
        candidates-Rests cs _
          (subst (λ (ms : List Meeting). All (CandidateSettled ms) cs) (sym r.0) k))

  -- A sweep is idempotent: a second one over the same agenda items changes no meeting and returns no
  -- id, whatever the titles say, so no meeting is matched again on its account.
  pub second_sweep_rests :
      (cs : List Candidate) (w : Swept)
      → let meetings = (sweep_candidates u value city cs w).meetings in
        let again =
          sweep_candidates u value city cs (record { meetings = meetings; flipped = [] }) in
        (again.meetings ≡ meetings) × (again.flipped ≡ [])
  second_sweep_rests cs w = candidates-Rests cs _ (candidates-Settled cs w)
