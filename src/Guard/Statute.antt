-- ===== src/Guard/Statute.antt =====
-- ai/transcripts/guard.py: canonical_statute. `digit` is \d, a table of the Unicode database.
use docket_pub.Prelude.{
  ℕ, ◌+◌, ◌/◌, ◌%◌, Bool, true, false, ◌&&◌, Option, none, some, List, [], ◌∷◌, ◌++◌, Text, codes,
  leb, ltb, if◌then◌else◌, same_text, find?,
}
use docket_pub.Guard.Normalize.{normalize}

-- The words below twenty of _NUM_WORDS, and its tens, which are _TENS.
abbrev small_numbers : List (Text × ℕ)
small_numbers =
    (codes "zero", 0)
    ∷ (codes "one", 1)
    ∷ (codes "two", 2)
    ∷ (codes "three", 3)
    ∷ (codes "four", 4)
    ∷ (codes "five", 5)
    ∷ (codes "six", 6)
    ∷ (codes "seven", 7)
    ∷ (codes "eight", 8)
    ∷ (codes "nine", 9)
    ∷ (codes "ten", 10)
    ∷ (codes "eleven", 11)
    ∷ (codes "twelve", 12)
    ∷ (codes "thirteen", 13)
    ∷ (codes "fourteen", 14)
    ∷ (codes "fifteen", 15)
    ∷ (codes "sixteen", 16)
    ∷ (codes "seventeen", 17)
    ∷ (codes "eighteen", 18)
    ∷ (codes "nineteen", 19)
    ∷ []

abbrev tens : List (Text × ℕ)
tens =
    (codes "twenty", 20)
    ∷ (codes "thirty", 30)
    ∷ (codes "forty", 40)
    ∷ (codes "fifty", 50)
    ∷ (codes "sixty", 60)
    ∷ (codes "seventy", 70)
    ∷ (codes "eighty", 80)
    ∷ (codes "ninety", 90)
    ∷ []

abbrev value_in : List (Text × ℕ) → Text → Option ℕ
value_in table w = elim (find? (λ p. same_text p.0 w) table) [ none ↦ none | some p ↦ some p.1 ]

-- str(n), below a hundred.
abbrev pub decimal : ℕ → Text
decimal n = if ltb n 10 then (b'0' + n) ∷ [] else (b'0' + n / 10) ∷ (b'0' + n % 10) ∷ []

-- _NUM_WORDS.get(w, w)
unfoldable pub spelled : Text → Text
spelled w = elim (value_in (small_numbers ++ tens) w) [ none ↦ w | some n ↦ decimal n ]

-- The value of a word of _NUM_WORDS that is one digit long.
unfoldable pub unit_value : Text → Option ℕ
unit_value w = elim (value_in small_numbers w) [
  | none ↦ none
  | some n ↦ if ltb n 10 then some n else none
]

-- The number that two words make, as in thirty-six.
unfoldable pub compound : Text → Text → Option ℕ
compound w v = elim (value_in tens w) [
  | none ↦ none
  | some n ↦ elim (unit_value v) [ none ↦ none | some u ↦ some (n + u) ]
]

-- The loop over the words.
unfoldable pub canonical : List Text → Text
canonical [] = []
canonical (w ∷ []) = spelled w
canonical (w ∷ v ∷ ws) = elim (compound w v) [
  | some n ↦ decimal n ++ canonical ws
  | none ↦ spelled w ++ canonical (v ∷ ws)
]

pub data CharClass : Type 0 where
  lower numeric other : CharClass

abbrev same_class : CharClass → CharClass → Bool
same_class lower lower = true
same_class numeric numeric = true
same_class _ _ = false

module _ (digit : ℕ → Bool) where
  abbrev class_of : ℕ → CharClass
  class_of c = if leb b'a' c && leb c b'z' then lower else if digit c then numeric else other

  abbrev continues : CharClass → Text → Bool
  continues k [] = false
  continues k (c ∷ _) = same_class k (class_of c)

  abbrev put : ℕ → Bool → List Text → List Text
  put c true (t ∷ ts) = (c ∷ t) ∷ ts
  put c true [] = (c ∷ []) ∷ []
  put c false ts = (c ∷ []) ∷ ts

  -- re.findall(r"[a-z]+|\d+", s)
  unfoldable pub statute_words : Text → List Text
  statute_words [] = []
  statute_words (c ∷ cs) =
      let rest = statute_words cs in
      elim (class_of c) [
        | other ↦ rest
        | lower ↦ put c (continues lower cs) rest
        | numeric ↦ put c (continues numeric cs) rest
      ]

  unfoldable pub canonical_statute : (fold : ℕ → Text) → Text → Text
  canonical_statute fold s = canonical (statute_words (normalize fold s))
