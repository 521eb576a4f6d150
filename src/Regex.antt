-- ===== src/Regex.antt =====
-- The part of Python's `re` that the code uses: literals with and without re.IGNORECASE, \b, \s+ and
-- alternatives, tried with `search`. Only whether a match exists is modelled.
use docket_pub.Prelude.{
  ℕ, ◌+◌, Bool, true, false, ◌&&◌, ◌||◌, not, Option, none, some, List, [], ◌∷◌, Text, codes,
  String, leb, ◌==◌, if◌then◌else◌,
}

pub data Regex : Type 0 where
  eps boundary : Regex
  -- A character under re.IGNORECASE, and one as it stands.
  chr just : ℕ → Regex
  one_or_more : (ℕ → Bool) → Regex
  seq alt : Regex → Regex → Regex

-- What re.IGNORECASE takes an ASCII letter for: its capital, and the few other letters whose lower
-- case it is (İ and ı for i, ſ for s, the Kelvin sign for k).
unfoldable pub fold : ℕ → ℕ
fold c =
    if leb b'A' c && leb c b'Z'
    then c + 32
    else if c == 0x130 || c == 0x131
    then b'i'
    else if c == 0x17F
    then b's'
    else if c == 0x212A
    then b'k'
    else c

-- str.isspace, which \s follows.
unfoldable pub is_space : ℕ → Bool
is_space c =
    (leb 9 c && leb c 13)
    || (leb 28 c && leb c 32)
    || c == 0x85
    || c == 0xA0
    || c == 0x1680
    || (leb 0x2000 c && leb c 0x200A)
    || c == 0x2028
    || c == 0x2029
    || c == 0x202F
    || c == 0x205F
    || c == 0x3000

abbrev pub lit : Text → Regex
lit [] = eps
lit (c ∷ cs) = seq (chr c) (lit cs)

-- A literal without re.IGNORECASE.
abbrev pub plain : Text → Regex
plain [] = eps
plain (c ∷ cs) = seq (just c) (plain cs)

abbrev pub spaces : Regex
spaces = one_or_more is_space

-- Words with \s+ between them.
abbrev pub phrase : List String → Regex
phrase [] = eps
phrase (w ∷ []) = lit (codes w)
phrase (w ∷ ws) = seq (lit (codes w)) (seq spaces (phrase ws))

abbrev pub one_of : Regex → List Regex → Regex
one_of r [] = r
one_of r (s ∷ rs) = alt r (one_of s rs)

-- One of some texts, without re.IGNORECASE.
abbrev pub any_of : String → List String → Regex
any_of w [] = plain (codes w)
any_of w (v ∷ vs) = alt (plain (codes w)) (any_of v vs)

-- `word` is Python's \w, a table of the Unicode database.
module _ (word : ℕ → Bool) where
  abbrev word_at : Option ℕ → Bool
  word_at none = false
  word_at (some c) = word c

  abbrev head_of : Text → Option ℕ
  head_of [] = none
  head_of (c ∷ _) = some c

  abbrev differ : Bool → Bool → Bool
  differ true b = not b
  differ false b = b

  more : (ℕ → Bool) → Text → (Option ℕ → Text → Bool) → Bool
  more f [] k = false
  more f (c ∷ cs) k = f c && (k (some c) cs || more f cs k)

  -- A match of `r` behind the character `p`, after which `k` goes on.
  run : Regex → Option ℕ → Text → (Option ℕ → Text → Bool) → Bool
  unfolding more fold is_space
  run eps p s k = k p s
  run boundary p s k = differ (word_at p) (word_at (head_of s)) && k p s
  run (chr a) p [] k = false
  run (chr a) p (c ∷ cs) k = fold c == a && k (some c) cs
  run (just a) p [] k = false
  run (just a) p (c ∷ cs) k = c == a && k (some c) cs
  run (one_or_more f) p s k = more f s k
  run (seq a b) p s k = run a p s (λ q t. run b q t k)
  run (alt a b) p s k = run a p s k || run b p s k

  search_from : Regex → Option ℕ → Text → Bool
  unfolding run
  search_from r p [] = run r p [] (λ _ _. true)
  search_from r p (c ∷ cs) = run r p (c ∷ cs) (λ _ _. true) || search_from r (some c) cs

  -- `re.search(...) is not None`
  unfoldable pub found : Regex → Text → Bool
  unfolding search_from
  found r s = search_from r none s

  -- `re.match(...) is not None`, or `search` behind ^.
  unfoldable pub matched : Regex → Text → Bool
  unfolding run
  matched r s = run r none s (λ _ _. true)
