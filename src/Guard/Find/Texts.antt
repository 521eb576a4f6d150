-- ===== src/Guard/Find/Texts.antt =====
-- ai/transcripts/guard.py: where find_text finds a text, and the texts around it.
use docket_pub.Prelude.{
  ℕ, zero, suc, ◌+◌, ◌<◌, ◌≡◌, refl, sym, ap, ◌∙◌, true, some, [], ◌∷◌, ◌++◌, Text, ◌==◌, ==_iff,
  take, drop, length, length-append, arith, Bool-cases, Option-cases, inl, inr,
}
use mathlib.Core.List.{append_assoc}
use docket_pub.Discrepancies.Citations.{slice}
use docket_pub.Guard.Normalize.{Mapped, tagged, offset_at}
use docket_pub.Guard.Find.{starts_with, find_text, characters}

-- One text stands in another.
abbrev pub StandsIn : Text → Text → Type 0
StandsIn t s = (before : Text) × (after : Text) × (s ≡ before ++ (t ++ after))

pub drop-map : (n : ℕ) (m : Mapped) → drop n (characters m) ≡ characters (drop n m)
drop-map zero m = refl
drop-map (suc n) [] = refl
drop-map (suc n) (q ∷ m) = drop-map n m

pub take-map : (n : ℕ) (m : Mapped) → take n (characters m) ≡ characters (take n m)
take-map zero m = refl
take-map (suc n) [] = refl
take-map (suc n) (q ∷ m) = ap (λ (l : Text). q.0 ∷ l) (take-map n m)

pub length-map : (m : Mapped) → length (characters m) ≡ length m
length-map [] = refl
length-map (q ∷ m) = omega (arith, length-map m)

pub map_append : (m k : Mapped) → characters (m ++ k) ≡ characters m ++ characters k
map_append [] k = refl
map_append (q ∷ m) k = ap (λ (l : Text). q.0 ∷ l) (map_append m k)

pub map-tagged : (i : ℕ) (cs : Text) → characters (tagged i cs) ≡ cs
map-tagged i [] = refl
map-tagged i (c ∷ cs) = ap (λ (l : Text). c ∷ l) (map-tagged i cs)

pub offset_at-drop : (n k : ℕ) (m : Mapped) → offset_at (drop n m) k ≡ offset_at m (n + k)
offset_at-drop zero k m = let e : 0 + k ≡ k = omega arith in rw e refl
offset_at-drop (suc n) k [] = refl
offset_at-drop (suc n) k (q ∷ m) =
    let e : suc n + k ≡ suc (n + k) = omega arith in rw e (offset_at-drop n k m)

pub take_append_drop : (n : ℕ) (s : Text) → take n s ++ drop n s ≡ s
take_append_drop zero s = refl
take_append_drop (suc n) [] = refl
take_append_drop (suc n) (c ∷ s) = ap (λ (l : Text). c ∷ l) (take_append_drop n s)

take-append_all : (t r : Text) → take (0 + length t) (t ++ r) ≡ t
take-append_all [] r = refl
take-append_all (c ∷ t) r =
    let e : 0 + suc (length t) ≡ suc (0 + length t) = omega arith in
    rw e (ap (λ (l : Text). c ∷ l) (take-append_all t r))

-- Where a text stands at an offset, it ends what is taken up to its end.
take-drop_append :
    (u c : ℕ) (cs r s : Text)
    → drop u s ≡ (c ∷ cs) ++ r
    → take (u + length (c ∷ cs)) s ≡ take u s ++ (c ∷ cs)
take-drop_append zero c cs r s h = rw h (take-append_all (c ∷ cs) r)
take-drop_append (suc u) c cs r [] h = absurd (cc h)
take-drop_append (suc u) c cs r (d ∷ s) h =
    let e : suc u + length (c ∷ cs) ≡ suc (u + length (c ∷ cs)) = omega arith in
    rw e (ap (λ (l : Text). d ∷ l) (take-drop_append u c cs r s h))

pub drop_within : (u c : ℕ) (cs r s : Text) → drop u s ≡ (c ∷ cs) ++ r → u + length cs < length s
drop_within zero c cs r s h = let l = length-append cs r in rw h (omega (arith, l))
drop_within (suc u) c cs r [] h = absurd (cc h)
drop_within (suc u) c cs r (d ∷ s) h = omega (arith, drop_within u c cs r s h)

-- A text that stands in another stands also in each text that begins alike up to its end.
pub StandsIn-take :
    (u c : ℕ) (cs r s t : Text)
    → drop u s ≡ (c ∷ cs) ++ r
    → take (u + length (c ∷ cs)) t ≡ take (u + length (c ∷ cs)) s
    → StandsIn (c ∷ cs) t
StandsIn-take u c cs r s t h e =
    let n = u + length (c ∷ cs) in
    let q : take n t ≡ take u s ++ (c ∷ cs) = e ∙ take-drop_append u c cs r s h in
    (
      take u s,
      drop n t,
      sym (take_append_drop n t)
          ∙ (ap (λ (l : Text). l ++ drop n t) q ∙ append_assoc (take u s) (c ∷ cs) (drop n t)),
    )

pub starts_with_then : (p s : Text) → starts_with p s ≡ true → (r : Text) × (s ≡ p ++ r)
unfolding starts_with
starts_with_then [] s h = (s, refl)
starts_with_then (p ∷ ps) [] h = absurd (cc h)
starts_with_then (p ∷ ps) (c ∷ cs) h = elim (Bool-cases (p == c)) [
  | inl e ↦
      let (r, q) = starts_with_then ps cs (rw (e, starts_with) at h) in
      (r, cc ((==_iff p c).0 e, q))
  | inr e ↦ absurd (cc (rw (e, starts_with) at h))
]

pub find_text_lem : (p s : Text) (i : ℕ) → find_text p s ≡ some i → (r : Text) × (drop i s ≡ p ++ r)
unfolding find_text
find_text_lem p [] i h = elim (Bool-cases (starts_with p [])) [
  | inl e ↦
      let z : i ≡ 0 = cc (rw (e, find_text) at h) in
      let (r, q) = starts_with_then p [] e in (r, rw z q)
  | inr e ↦ absurd (cc (rw (e, find_text) at h))
]
find_text_lem p (c ∷ cs) i h = elim (Bool-cases (starts_with p (c ∷ cs))) [
  | inl e ↦
      let z : i ≡ 0 = cc (rw (e, find_text) at h) in
      let (r, q) = starts_with_then p (c ∷ cs) e in (r, rw z q)
  | inr e ↦ elim (Option-cases (find_text p cs)) [
    | inl g ↦ absurd (cc (rw (e, find_text, g) at h))
    | inr (k, g) ↦
        let z : i ≡ suc k = cc (rw (e, find_text, g) at h) in
        let (r, q) = find_text_lem p cs k g in (r, rw z q)
  ]
]

pub slice-take : (s : Text) (a b : ℕ) → slice s a (a + b) ≡ take b (drop a s)
unfolding slice
slice-take s zero b = let e : 0 + b ≡ b = omega arith in rw e refl
slice-take [] (suc a) zero = refl
slice-take [] (suc a) (suc b) = refl
slice-take (c ∷ s) (suc a) b =
    let e : suc a + b ≡ suc (a + b) = omega arith in rw e (slice-take s a b)
