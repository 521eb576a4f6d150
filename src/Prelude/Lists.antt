-- ===== src/Prelude/Lists.antt =====
-- Lists measured by native numbers, and the list operations of the Python code.
use Prim.Native.Nat.{ℕ, zero, suc, ◌+◌, ◌/◌, ◌%◌, ◌≤◌, compare, Ordering}
use Prim.Native.Char.{code}
use Prim.Native.String.{String}
use mathlib.Core.Path.{◌≡◌, refl, sym, subst, ap, ◌∙◌}
use mathlib.Core.Logic.{◌⊎◌, inl, inr}
use mathlib.Core.Bool.{Bool, true, false, ◌||◌, ◌&&◌}
use mathlib.Core.Option.{Option, none, some}
use mathlib.Core.List.{List, [], ◌∷◌, ◌++◌, map}
use native.Mathlib.Omega.{arith}
use docket_pub.Prelude.Tests.{◌==◌, if◌then◌else◌, Bool-cases, ==_iff}

-- A Python string: its code points.
abbrev pub Text : Type 0
Text = List ℕ

-- The code points of a literal.
abbrev pub codes : String → Text
codes String.[] = []
codes (String.◌∷◌ c s) = code c ∷ codes s

-- `s == t`
abbrev pub same_text : Text → Text → Bool
same_text [] [] = true
same_text [] (_ ∷ _) = false
same_text (_ ∷ _) [] = false
same_text (c ∷ s) (d ∷ t) = c == d && same_text s t

module _ {ℓ} {A : Type ℓ} where
  abbrev pub length : List A → ℕ
  length [] = 0
  length (x ∷ xs) = suc (length xs)

  abbrev pub any : (A → Bool) → List A → Bool
  any p [] = false
  any p (x ∷ xs) = p x || any p xs

  abbrev pub all : (A → Bool) → List A → Bool
  all p [] = true
  all p (x ∷ xs) = p x && all p xs

  -- `[x for x in xs if p(x)]`
  abbrev pub keep : (A → Bool) → List A → List A
  keep p [] = []
  keep p (x ∷ xs) = if p x then x ∷ keep p xs else keep p xs

  -- `next((x for x in xs if p(x)), None)`
  abbrev pub find? : (A → Bool) → List A → Option A
  find? p [] = none
  find? p (x ∷ xs) = if p x then some x else find? p xs

  abbrev pub take : ℕ → List A → List A
  take zero xs = []
  take (suc n) [] = []
  take (suc n) (x ∷ xs) = x ∷ take n xs

  -- `xs[n:]`
  abbrev pub drop : ℕ → List A → List A
  drop zero xs = xs
  drop (suc n) [] = []
  drop (suc n) (x ∷ xs) = drop n xs

  abbrev pub get_elem? : List A → ℕ → Option A
  get_elem? [] i = none
  get_elem? (x ∷ xs) zero = some x
  get_elem? (x ∷ xs) (suc i) = get_elem? xs i

  pub length-take-le : (n : ℕ) (xs : List A) → length (take n xs) ≤ n
  length-take-le zero xs = omega arith
  length-take-le (suc n) [] = omega arith
  length-take-le (suc n) (x ∷ xs) = omega (arith, length-take-le n xs)

  abbrev pub All {κ} : (A → Type κ) → List A → Type κ
  All P [] = Unit
  All P (x ∷ xs) = P x × All P xs

  pub length-append : (xs ys : List A) → length (xs ++ ys) ≡ length xs + length ys
  length-append [] ys = omega arith
  length-append (x ∷ xs) ys = omega (arith, length-append xs ys)

  pub length-keep-le : (p : A → Bool) (xs : List A) → length (keep p xs) ≤ length xs
  length-keep-le p [] = omega arith
  length-keep-le p (x ∷ xs) = ground (arith, length-keep-le p xs)

module _ {A : Type 0} where
  -- Membership by recursion, which the tactics take apart.
  abbrev pub In : A → List A → Type 0
  In a [] = ⊥
  In a (x ∷ xs) = (a ≡ x) ⊎ In a xs

  pub All-members {κ} : (P : A → Type κ) (xs : List A) → ((a : A) → In a xs → P a) → All P xs
  All-members P [] f = tt
  All-members P (x ∷ xs) f = (f x (inl refl), All-members P xs (λ a m. f a (inr m)))

  pub All-In {κ} : (P : A → Type κ) (a : A) (xs : List A) → All P xs → In a xs → P a
  All-In P a [] h m = absurd m
  All-In P a (x ∷ xs) h (inl e) = subst P (sym e) h.0
  All-In P a (x ∷ xs) h (inr m) = All-In P a xs h.1 m

  pub In-keep : (p : A → Bool) (a : A) (xs : List A) → In a (keep p xs) → In a xs × (p a ≡ true)
  In-keep p a [] m = absurd m
  In-keep p a (x ∷ xs) m = elim (Bool-cases (p x)) [
    | inl e ↦ elim (rw e at m) [
      | inl q ↦ (inl q, rw q e)
      | inr m' ↦ (inr (In-keep p a xs m').0, (In-keep p a xs m').1)
    ]
    | inr e ↦ let r = In-keep p a xs (rw e at m) in (inr r.0, r.1)
  ]

  pub All-keep {κ} :
      (P : A → Type κ) (p : A → Bool) (xs : List A)
      → All P (keep p xs)
      → All (λ x. p x ≡ true → P x) xs
  All-keep P p [] h = tt
  All-keep P p (x ∷ xs) h = elim (Bool-cases (p x)) [
    | inl e ↦ let h' = rw e at h in ((λ _. h'.0), All-keep P p xs h'.1)
    | inr e ↦ let h' = rw e at h in ((λ e'. cc (e, e')), All-keep P p xs h')
  ]

  pub All-map {κ μ} :
      (P : A → Type κ) (Q : A → Type μ) (xs : List A) → ((x : A) → P x → Q x) → All P xs → All Q xs
  All-map P Q [] f h = tt
  All-map P Q (x ∷ xs) f h = (f x h.0, All-map P Q xs f h.1)

  pub All-of_In {κ} : (P : A → Type κ) (xs : List A) → ((x : A) → In x xs → P x) → All P xs
  All-of_In P [] f = tt
  All-of_In P (x ∷ xs) f = (f x (inl refl), All-of_In P xs (λ y m. f y (inr m)))

  pub any-false-In : (p : A → Bool) (a : A) (xs : List A) → any p xs ≡ false → In a xs → p a ≡ false
  any-false-In p a [] e m = absurd m
  any-false-In p a (x ∷ xs) e (inl q) = let h : p x ≡ false = ground (arith, e) in ap p q ∙ h
  any-false-In p a (x ∷ xs) e (inr m) = any-false-In p a xs (ground (arith, e)) m

  pub any-false-All : (p : A → Bool) (xs : List A) → All (λ x. p x ≡ false) xs → any p xs ≡ false
  any-false-All p [] h = refl
  any-false-All p (x ∷ xs) h = ground (arith, h.0, any-false-All p xs h.1)

  pub All-append {κ} : (P : A → Type κ) (xs ys : List A) → All P xs → All P ys → All P (xs ++ ys)
  All-append P [] ys h k = k
  All-append P (x ∷ xs) ys h k = (h.0, All-append P xs ys h.1 k)

  pub All-always {κ} : (P : A → Type κ) (xs : List A) → ((x : A) → P x) → All P xs
  All-always P [] f = tt
  All-always P (x ∷ xs) f = (f x, All-always P xs f)

  pub In-of_keep : (p : A → Bool) (a : A) (xs : List A) → p a ≡ true → In a xs → In a (keep p xs)
  In-of_keep p a [] e m = m
  In-of_keep p a (x ∷ xs) e (inl q) = let h : p x ≡ true = ap p (sym q) ∙ e in rw h (inl q)
  In-of_keep p a (x ∷ xs) e (inr m) = elim (Bool-cases (p x)) [
    | inl h ↦ rw h (inr (In-of_keep p a xs e m))
    | inr h ↦ rw h (In-of_keep p a xs e m)
  ]

  pub In-append_left : (a : A) (xs ys : List A) → In a xs → In a (xs ++ ys)
  In-append_left a (x ∷ xs) ys (inl q) = inl q
  In-append_left a (x ∷ xs) ys (inr m) = inr (In-append_left a xs ys m)
  In-append_left a [] ys m = absurd m

  pub In-append_right : (a : A) (xs ys : List A) → In a ys → In a (xs ++ ys)
  In-append_right a [] ys m = m
  In-append_right a (x ∷ xs) ys m = inr (In-append_right a xs ys m)

  pub In-of_append : (a : A) (xs ys : List A) → In a (xs ++ ys) → In a xs ⊎ In a ys
  In-of_append a [] ys m = inr m
  In-of_append a (x ∷ xs) ys (inl q) = inl (inl q)
  In-of_append a (x ∷ xs) ys (inr m) = elim (In-of_append a xs ys m) [
    | inl h ↦ inl (inr h)
    | inr h ↦ inr h
  ]

  pub any-In : (p : A → Bool) (a : A) (xs : List A) → p a ≡ true → In a xs → any p xs ≡ true
  any-In p a [] e m = absurd m
  any-In p a (x ∷ xs) e (inl q) = let h : p x ≡ true = ap p (sym q) ∙ e in rw h
  any-In p a (x ∷ xs) e (inr m) = ground (arith, any-In p a xs e m)

-- Some element passes, so one of them does.
pub In-of_any :
    {A : Type 0} (p : A → Bool) (xs : List A) → any p xs ≡ true → (a : A) × In a xs × (p a ≡ true)
In-of_any p [] h = absurd (cc h)
In-of_any p (x ∷ xs) h = elim (Bool-cases (p x)) [
  | inl e ↦ (x, inl refl, e)
  | inr e ↦ let (a, m, q) = In-of_any p xs (rw e at h) in (a, inr m, q)
]

pub All-of_map {κ μ} :
    {A B : Type 0} (P : A → Type κ) (Q : B → Type μ) (f : A → B)
    → ((x : A) → P x → Q (f x))
    → (xs : List A) → All P xs
    → All Q (map f xs)
All-of_map P Q f g [] h = tt
All-of_map P Q f g (x ∷ xs) h = (g x h.0, All-of_map P Q f g xs h.1)

pub In-map : {A B : Type 0} (f : A → B) (a : A) (xs : List A) → In a xs → In (f a) (map f xs)
In-map f a [] m = absurd m
In-map f a (x ∷ xs) (inl q) = inl (ap f q)
In-map f a (x ∷ xs) (inr m) = inr (In-map f a xs m)

-- `n in xs`
abbrev pub contains : ℕ → List ℕ → Bool
contains n = any (λ x. n == x)

pub In-of_contains : (n : ℕ) (xs : List ℕ) → contains n xs ≡ true → In n xs
In-of_contains n xs h =
    let (m, i, e) = In-of_any (λ x. n == x) xs h in
    subst (λ (x : ℕ). In x xs) (sym ((==_iff n m).0 e)) i

-- `m in xs`
abbrev pub has_text : Text → List Text → Bool
has_text t = any (λ u. same_text t u)

-- `set.add` on a set of numbers that is kept in order.
abbrev pub add_number : ℕ → List ℕ → List ℕ
add_number n [] = n ∷ []
add_number n (m ∷ ms) = elim (compare n m) [
  | Ordering.lt ↦ n ∷ m ∷ ms
  | Ordering.eq ↦ m ∷ ms
  | Ordering.gt ↦ m ∷ add_number n ms
]

-- `sorted(set(xs))`
abbrev pub sorted_set : List ℕ → List ℕ
sorted_set [] = []
sorted_set (n ∷ ns) = add_number n (sorted_set ns)

In-of_add_number : (a n : ℕ) (ms : List ℕ) → In a (add_number n ms) → (a ≡ n) ⊎ In a ms
In-of_add_number a n [] = λ m. m
In-of_add_number a n (m ∷ ms) =
    elim (compare n m)
      as (λ o.
        In a (elim o [
          | Ordering.lt ↦ n ∷ m ∷ ms
          | Ordering.eq ↦ m ∷ ms
          | Ordering.gt ↦ m ∷ add_number n ms
        ])
        → (a ≡ n) ⊎ In a (m ∷ ms)) [
          | Ordering.lt ↦ λ h. h
          | Ordering.eq ↦ λ h. inr h
          | Ordering.gt ↦ λ h. elim h [
            | inl q ↦ inr (inl q)
            | inr i ↦ elim (In-of_add_number a n ms i) [ inl q ↦ inl q | inr k ↦ inr (inr k) ]
          ]
        ]

pub In-of_sorted_set : (a : ℕ) (ns : List ℕ) → In a (sorted_set ns) → In a ns
In-of_sorted_set a [] m = absurd m
In-of_sorted_set a (n ∷ ns) m = elim (In-of_add_number a n (sorted_set ns) m) [
  | inl q ↦ inl q
  | inr k ↦ inr (In-of_sorted_set a ns k)
]

-- The decimal digits of a number, in at most `rounds` rounds, before `rest`.
abbrev pub digits_onto : (rounds : ℕ) → ℕ → Text → Text
digits_onto zero n rest = rest
digits_onto (suc k) n rest = elim (n / 10 == 0) [
  | true ↦ (b'0' + n % 10) ∷ rest
  | false ↦ digits_onto k (n / 10) ((b'0' + n % 10) ∷ rest)
]

-- str(n)
abbrev pub str_number : ℕ → Text
str_number n = digits_onto (suc n) n []
