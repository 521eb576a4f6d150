-- ===== src/Discrepancies/Gate/Window.antt =====
-- services/discrepancies.py: the rows that the ship gate looks at.
use docket_pub.Prelude.{
  ℕ, zero, suc, ◌+◌, ◌*◌, ◌≤◌, ◌<◌, ◌≡◌, ◌↔◌, refl, Bool, true, false, ◌&&◌, ◌||◌, not, List, [],
  ◌∷◌, ◌++◌, length, leb, ltb, ◌==◌, contains, take, if◌then◌else◌, arith, ap, Bool-cases, inl, inr,
  ◌⊎◌,
}
use docket_pub.Discrepancies.Gate.{
  Reviewed, Tally, start, counted_with, opens_eleventh, has_thirty, gate_loop, gate_of, ship_gate,
  ship_gate_meetings, ship_gate_candidates,
}

-- The distinct meetings of the rows, in order of first appearance, behind those in `seen`.
pub meetings_from : List ℕ → List Reviewed → List ℕ
meetings_from seen [] = seen
meetings_from seen (r ∷ rs) =
    meetings_from (if contains r.meeting_id seen then seen else seen ++ r.meeting_id ∷ []) rs

-- The rows up to the first whose meeting would be one more than `cap` distinct ones.
pub within_meetings : (cap : ℕ) → List ℕ → List Reviewed → List Reviewed
within_meetings cap seen [] = []
within_meetings cap seen (r ∷ rs) =
    let seen' = if contains r.meeting_id seen then seen else seen ++ r.meeting_id ∷ [] in
    let rest = within_meetings cap seen' rs in
    if not (contains r.meeting_id seen) && length seen == cap then [] else r ∷ rest

pub count_approved : List Reviewed → ℕ
count_approved [] = 0
count_approved (r ∷ rs) = let n = count_approved rs in if r.is_approved then suc n else n

-- The window of the specification: the first thirty rows of the first ten meetings.
abbrev pub window : List Reviewed → List Reviewed
window rows = take ship_gate_candidates (within_meetings ship_gate_meetings [] rows)

abbrev total_of : Tally → ℕ
total_of t = t.approved + t.rejected

-- A tally that has taken the rows `w` up, behind `t`.
abbrev Takes : Tally → List Reviewed → Tally → Type 0
Takes t w t' =
    (t'.approved ≡ t.approved + count_approved w)
    × (total_of t' ≡ total_of t + length w)
    × (t'.meetings ≡ meetings_from t.meetings w)

counted-total : (r : Reviewed) (t : Tally) → total_of (counted_with r t) ≡ total_of t + 1
counted-total r t = ground arith

Takes-step :
    (r : Reviewed) (t t' : Tally) (w : List Reviewed)
    → Takes (counted_with r t) w t'
    → Takes t (r ∷ w) t'
unfolding count_approved meetings_from
Takes-step r t t' w h = elim (Bool-cases r.is_approved) [
  | inl e ↦ let (a, b, c) = rw e at h in rw e (omega (arith, a), omega (arith, b), c)
  | inr e ↦ let (a, b, c) = rw e at h in rw e (omega (arith, a), omega (arith, b), c)
]

Takes-nil : (t : Tally) → Takes t [] t
unfolding count_approved meetings_from
Takes-nil t = (omega arith, omega arith, refl)

loop-Takes :
    (k : ℕ) (rows : List Reviewed) (t : Tally)
    → total_of t + suc k ≡ ship_gate_candidates
    → Takes t (take (suc k) (within_meetings ship_gate_meetings t.meetings rows)) (gate_loop rows t)
unfolding gate_loop within_meetings
loop-Takes k [] t h = Takes-nil t
loop-Takes zero (r ∷ rs) t h = elim (Bool-cases (opens_eleventh r t)) [
  | inl e ↦ rw e (Takes-nil t)
  | inr e ↦
      let full : has_thirty (counted_with r t) ≡ true = ground (arith, counted-total r t) in
      rw (e, full) (Takes-step r t (counted_with r t) [] (Takes-nil (counted_with r t)))
]
loop-Takes (suc k) (r ∷ rs) t h = elim (Bool-cases (opens_eleventh r t)) [
  | inl e ↦ rw e (Takes-nil t)
  | inr e ↦
      let t' = counted_with r t in
      let room : has_thirty t' ≡ false = ground (arith, counted-total r t) in
      let rest = loop-Takes k rs t' (omega (arith, counted-total r t)) in
      rw (e, room)
        (Takes-step r t (gate_loop rs t')
          (take (suc k) (within_meetings ship_gate_meetings t'.meetings rs)) rest)
]

complete_iff :
    (total meetings m k : ℕ)
    → total ≡ m
    → meetings ≡ k
    → ((leb ship_gate_candidates total || leb ship_gate_meetings meetings) ≡ true)
      ↔ ((ship_gate_candidates ≤ m) ⊎ (ship_gate_meetings ≤ k))
complete_iff total meetings m k e f = (λ h. ground arith, λ h. ground arith)

met_iff :
    (c : Bool) (approved total n m : ℕ)
    → approved ≡ n
    → total ≡ m
    → ((c && (ltb 0 total && leb (7 * total) (10 * approved))) ≡ true)
      ↔ ((c ≡ true) × (0 < m) × (7 * m ≤ 10 * n))
met_iff c approved total n m e f = (λ h. ground arith, λ h. ground arith)

-- The gate decides on its window, the first thirty of the rows before an eleventh meeting appears:
-- `approved`, `total` and `meetings` count the approved rows, the rows and the distinct meetings of
-- the window; it is complete exactly with thirty rows or ten meetings, and the gate is met exactly
-- if it is complete and at least seven tenths of its rows, of which there is one, are approved.
pub ship_gate-window :
    (rows : List Reviewed)
    → let g = ship_gate rows in
      let w = window rows in
      (g.approved ≡ count_approved w)
      × (g.total ≡ length w)
      × (g.meetings ≡ length (meetings_from [] w))
      × ((g.window_complete ≡ true) ↔ (
          (ship_gate_candidates ≤ length w) ⊎ (ship_gate_meetings ≤ length (meetings_from [] w))))
      × ((g.gate_met ≡ true)
          ↔ ((g.window_complete ≡ true) × (0 < length w) × (7 * length w ≤ 10 * count_approved w)))
unfolding ship_gate
ship_gate-window rows =
    let (a, b, c) = loop-Takes 29 rows start (omega arith) in
    let total = total_of (gate_loop rows start) in
    let a' : (gate_loop rows start).approved ≡ count_approved (window rows) = omega (arith, a) in
    let b' : total ≡ length (window rows) = omega (arith, b) in
    let c' : length (gate_loop rows start).meetings ≡ length (meetings_from [] (window rows)) =
      ap length c in
    let complete =
      complete_iff total (length (gate_loop rows start).meetings) (length (window rows))
        (length (meetings_from [] (window rows))) b' c' in
    let met =
      met_iff (gate_of (gate_loop rows start)).window_complete (gate_loop rows start).approved total
        (count_approved (window rows)) (length (window rows)) a' b' in
    (a', b', c', complete, met)
