-- ===== src/Adoption/Sweep/Flips.antt =====
-- services/minutes_adoption.py: what a sweep may change of a meeting.
use docket_pub.Prelude.{
  ℕ, ◌≡◌, refl, Bool, true, false, ◌&&◌, inl, inr, none, some, List, [], ◌∷◌, map, All, Bool-cases,
  Option-cases, arith, if◌then◌else◌,
}
use docket_pub.Votes.Words.{Unicode}
use docket_pub.Adoption.Types.{Date, is_before, same_date, DateSpan, is_range}
use docket_pub.Adoption.Tokens.{is_adoption_title}
use docket_pub.Adoption.Parse.{extract_adoption_targets}
use docket_pub.Adoption.Parse.Window.{IsTarget, targets_in_window}
use docket_pub.Adoption.Sweep.{
  Meeting, Line, Candidate, Swept, is_unadopted, adopted_on, flip_where, is_in_range, is_named,
  is_chosen, sweep_span, sweep_spans, sweep_candidate, sweep_candidates, sweep_adoptions,
  candidates_of,
}

-- A row stays as it is; or it was not adopted, and is now by a meeting behind its own date, and is a
-- meeting of the city that is not hidden.
pub data Step (city : ℕ) : (old new : Meeting) → Type 0 where
  same : {m : Meeting} → Step city m m
  flip :
      {m : Meeting} (d : Date)
      → m.minutes_adopted_at ≡ none
      → m.is_hidden ≡ false
      → m.municipality_id ≡ city
      → is_before m.meeting_date d ≡ true
      → Step city m (adopted_on d m)

pub data Steps (city : ℕ) : (old new : List Meeting) → Type 0 where
  done : Steps city [] []
  next :
      {m n : Meeting} {ms ns : List Meeting}
      → Step city m n
      → Steps city ms ns
      → Steps city (m ∷ ms) (n ∷ ns)

Step-trans : (city : ℕ) (a b c : Meeting) → Step city a b → Step city b c → Step city a c
Step-trans city a b c same k = k
Step-trans city a b c (flip d e h g p) same = flip d e h g p
Step-trans city a b c (flip d e h g p) (flip d' e' _ _ _) = absurd (cc e')

pub Steps-refl : (city : ℕ) (ms : List Meeting) → Steps city ms ms
Steps-refl city [] = done
Steps-refl city (m ∷ ms) = next same (Steps-refl city ms)

pub Steps-trans :
    (city : ℕ) (a b c : List Meeting) → Steps city a b → Steps city b c → Steps city a c
Steps-trans city a b c done k = k
Steps-trans city a b c (next s t) (next s' t') =
    next (Step-trans city _ _ _ s s') (Steps-trans city _ _ _ t t')

-- What makes a row one that a meeting on a date may adopt.
abbrev IsAdoptable : (city : ℕ) → Date → Meeting → Type 0
IsAdoptable city d m =
    (m.is_hidden ≡ false) × (m.municipality_id ≡ city) × (is_before m.meeting_date d ≡ true)

unadopted : (m : Meeting) → m.minutes_adopted_at ≡ none → is_unadopted m ≡ true
unfolding is_unadopted
unadopted m q = rw q refl

recorded : (m : Meeting) (d : Date) → m.minutes_adopted_at ≡ some d → is_unadopted m ≡ false
unfolding is_unadopted
recorded m d q = rw q refl

flipped-Step :
    (city : ℕ) (d : Date) (p : Meeting → Bool)
    → ((m : Meeting) → p m ≡ true → IsAdoptable city d m)
    → (m : Meeting) → Step city m (if p m && is_unadopted m then adopted_on d m else m)
flipped-Step city d p h m = elim (Bool-cases (p m)) [
  | inr e ↦ rw e same
  | inl e ↦ elim (Option-cases m.minutes_adopted_at) [
    | inl q ↦ let (hidden, c, before) = h m e in rw (e, unadopted m q) (flip d q hidden c before)
    | inr (x, q) ↦ rw (e, recorded m x q) same
  ]
]

map-Steps :
    (city : ℕ) (f : Meeting → Meeting)
    → ((m : Meeting) → Step city m (f m))
    → (ms : List Meeting) → Steps city ms (map f ms)
map-Steps city f h [] = done
map-Steps city f h (m ∷ ms) = next (h m) (map-Steps city f h ms)

flip_where-Steps :
    (city : ℕ) (d : Date) (p : Meeting → Bool)
    → ((m : Meeting) → p m ≡ true → IsAdoptable city d m)
    → (w : Swept) → Steps city w.meetings (flip_where p d w).meetings
unfolding flip_where
flip_where-Steps city d p h w = map-Steps city _ (flipped-Step city d p h) w.meetings

in_range-IsAdoptable :
    (city : ℕ) (adopting : Date) (s : DateSpan) (m : Meeting)
    → is_in_range city adopting s m ≡ true
    → IsAdoptable city adopting m
unfolding is_in_range
in_range-IsAdoptable city adopting s m h = (ground (arith, h), ground (arith, h), ground (arith, h))

same_before : (a b c : Date) → same_date a b ≡ true → is_before b c ≡ true → is_before a c ≡ true
unfolding same_date is_before
same_before a b c h k = ground (arith, h, k)

chosen-IsAdoptable :
    (city : ℕ) (adopting : Date) (s : DateSpan) (several : Bool)
    → is_range s ≡ false
    → is_before s.end adopting ≡ true
    → (m : Meeting) → is_chosen city s.start several m ≡ true
    → IsAdoptable city adopting m
unfolding is_chosen is_named is_range
chosen-IsAdoptable city adopting s several r b m h =
    let one : same_date s.start s.end ≡ true = ground (arith, r) in
    let on : same_date m.meeting_date s.start ≡ true = ground (arith, h) in
    (
      ground (arith, h),
      ground (arith, h),
      same_before m.meeting_date s.start adopting on (same_before s.start s.end adopting one b),
    )

pub sweep_span-Steps :
    (city : ℕ) (adopting : Date) (s : DateSpan) (w : Swept)
    → is_before s.end adopting ≡ true
    → Steps city w.meetings (sweep_span city adopting s w).meetings
unfolding sweep_span
sweep_span-Steps city adopting s w b = elim (Bool-cases (is_range s)) [
  | inl e ↦
      rw (sweep_span, e) (flip_where-Steps city adopting _ (in_range-IsAdoptable city adopting s) w)
  | inr e ↦
      rw (sweep_span, e)
        (flip_where-Steps city adopting _ (chosen-IsAdoptable city adopting s _ e b) w)
]

pub sweep_spans-Steps :
    (city : ℕ) (adopting : Date) (ss : List DateSpan) (w : Swept)
    → All (IsTarget adopting) ss
    → Steps city w.meetings (sweep_spans city adopting ss w).meetings
unfolding sweep_spans IsTarget
sweep_spans-Steps city adopting [] w h = Steps-refl city w.meetings
sweep_spans-Steps city adopting (s ∷ ss) w ((_, _, _, b, _), k) =
    Steps-trans city _ _ _ (sweep_span-Steps city adopting s w b)
      (sweep_spans-Steps city adopting ss _ k)

module _ (u : Unicode) (value : ℕ → ℕ) (city : ℕ) where
  pub sweep_candidate-Steps :
      (c : Candidate) (w : Swept)
      → Steps city w.meetings (sweep_candidate u value city c w).meetings
  unfolding sweep_candidate
  sweep_candidate-Steps c w = elim (Bool-cases (is_adoption_title u value c.title)) [
    | inr e ↦ rw (sweep_candidate, e) (Steps-refl city w.meetings)
    | inl e ↦
        elim (Option-cases (extract_adoption_targets u value c.title c.adoption_meeting_date)) [
          | inl q ↦ rw (sweep_candidate, e, q) (Steps-refl city w.meetings)
          | inr (spans, q) ↦
              rw (sweep_candidate, e, q)
                (sweep_spans-Steps city c.adoption_meeting_date spans w
                  (targets_in_window u value c.title c.adoption_meeting_date spans q))
        ]
  ]

  pub sweep_candidates-Steps :
      (cs : List Candidate) (w : Swept)
      → Steps city w.meetings (sweep_candidates u value city cs w).meetings
  unfolding sweep_candidates
  sweep_candidates-Steps [] w = Steps-refl city w.meetings
  sweep_candidates-Steps (c ∷ cs) w =
      Steps-trans city _ _ _ (sweep_candidate-Steps c w) (sweep_candidates-Steps cs _)

  -- A sweep changes nothing of a meeting but that one that was not adopted may be adopted, if it is
  -- a meeting of the city that is not hidden, by a meeting on a later day than its own. So an
  -- adoption that is recorded stands, whatever the titles of later agendas say.
  pub sweep_adoptions-Steps :
      (passed : ℕ → Bool) (lines : List Line) (meetings : List Meeting)
      → Steps city meetings (sweep_adoptions u value city passed lines meetings).meetings
  unfolding sweep_adoptions
  sweep_adoptions-Steps passed lines meetings =
      sweep_candidates-Steps (candidates_of city passed meetings lines) _
