-- ===== src/Adoption/Tokens.antt =====
-- analysis/minutes_approval.py, and the regular expressions of services/minutes_adoption.py. \w and
-- \d come as `u`, and `value` is what int reads a digit as. Each token of _DATE_TOKEN_RE but a dash is
-- a whole run of word characters, so the scan goes from run to run.
use docket_pub.Prelude.{
  ℕ, zero, suc, ◌+◌, ◌*◌, ◌-◌, Bool, true, false, ◌&&◌, ◌||◌, not, Option, none, some, List, [],
  ◌∷◌, map, reverse, Text, String, codes, ◌==◌, any, length, has_text, if◌then◌else◌,
}
use docket_pub.Regex.{
  Regex, eps, boundary, one_or_more, seq, alt, lit, spaces, fold, is_space, matched,
}
use docket_pub.Votes.Words.{Unicode}
use docket_pub.Votes.Tiers.{drop_spaces}

abbrev optional : Regex → Regex
optional r = alt r eps

abbrev word_then_space : Regex
word_then_space = seq (one_or_more (λ c. not (is_space c))) spaces

-- (?:\S+\s+){0,n}
abbrev up_to : ℕ → Regex
up_to zero = eps
up_to (suc n) = optional (seq word_then_space (up_to n))

-- The first of _ADOPTION_TITLE_PATTERNS, behind ^.
abbrev pub approval_pattern : Regex
approval_pattern = seq (optional spaces) (
    seq (alt (lit (codes "approval")) (lit (codes "adoption"))) (
      seq spaces (
        seq (optional (seq (lit (codes "of")) spaces)) (
          seq (optional (seq (lit (codes "the")) spaces))
            (seq (up_to 4) (seq (lit (codes "minutes")) boundary))))))

-- A token, with its value.
pub data Token : Type 0 where
  month_token year_token day_token : ℕ → Token
  range_token : Token

-- A token with the text between it and the one before.
pub record Found : Type 0 where
  pub gap : Text
  pub token : Token

module _ (u : Unicode) (value : ℕ → ℕ) where
  -- The second, behind ^; its spaces are literal.
  abbrev meeting_pattern : Regex
  meeting_pattern = seq (optional spaces) (
      seq (lit (codes "minutes from the ")) (
        seq (optional (seq (one_or_more u.word) spaces)) (seq (lit (codes "meeting of")) boundary)))

  unfoldable pub is_adoption_title : Text → Bool
  is_adoption_title t = matched u.word approval_pattern t || matched u.word meeting_pattern t

  -- The run of word characters that a text begins with, and what follows it.
  unfoldable pub run_at : Text → Text × Text
  run_at [] = ([], [])
  run_at (c ∷ cs) =
      let (run, rest) = run_at cs in if u.word c then (c ∷ run, rest) else ([], c ∷ cs)

  abbrev begins_digit : Text → Bool
  begins_digit [] = false
  begins_digit (c ∷ _) = u.digit c

  abbrev is_dash : ℕ → Bool
  is_dash c = c == b'-' || c == 0x2013 || c == 0x2014 || c == 0x2010 || c == 0x2011 || c == 0x2212

  -- The forms of MONTH_PATTERN, by their first three letters.
  abbrev month_names : List (List String)
  month_names =
      ("jan" ∷ "january" ∷ [])
      ∷ ("feb" ∷ "february" ∷ [])
      ∷ ("mar" ∷ "march" ∷ [])
      ∷ ("apr" ∷ "april" ∷ [])
      ∷ ("may" ∷ [])
      ∷ ("jun" ∷ "june" ∷ [])
      ∷ ("jul" ∷ "july" ∷ [])
      ∷ ("aug" ∷ "august" ∷ [])
      ∷ ("sep" ∷ "sept" ∷ "september" ∷ [])
      ∷ ("oct" ∷ "october" ∷ [])
      ∷ ("nov" ∷ "november" ∷ [])
      ∷ ("dec" ∷ "december" ∷ [])
      ∷ []

  abbrev is_one_of : Text → List String → Bool
  is_one_of run names = has_text (map fold run) (map codes names)

  unfoldable pub month_from : (n : ℕ) → List (List String) → Text → Option ℕ
  month_from n [] run = none
  month_from n (names ∷ rest) run =
      if is_one_of run names then some n else month_from (n + 1) rest run

  unfoldable pub number_of : ℕ → Text → ℕ
  number_of acc [] = acc
  number_of acc (c ∷ cs) = number_of (acc * 10 + value c) cs

  -- (?:19|20)\d{2}
  unfoldable pub year_of : Text → Option ℕ
  year_of (a ∷ b ∷ c ∷ d ∷ []) =
      if ((a == b'1' && b == b'9') || (a == b'2' && b == b'0')) && u.digit c && u.digit d
      then some (number_of 0 (a ∷ b ∷ c ∷ d ∷ []))
      else none
  year_of _ = none

  abbrev is_ordinal_end : Text → Bool
  is_ordinal_end [] = true
  is_ordinal_end (c ∷ cs) = is_one_of (c ∷ cs) ("st" ∷ "nd" ∷ "rd" ∷ "th" ∷ [])

  -- \d{1,2}(?:st|nd|rd|th)?
  unfoldable pub day_of : Text → Option ℕ
  day_of [] = none
  day_of (a ∷ []) = if u.digit a then some (value a) else none
  day_of (a ∷ b ∷ cs) =
      if u.digit a && u.digit b && is_ordinal_end cs
      then some (number_of 0 (a ∷ b ∷ []))
      else if u.digit a && is_ordinal_end (b ∷ cs)
      then some (value a)
      else none

  abbrev drop_dot : Text → Text
  drop_dot [] = []
  drop_dot (c ∷ cs) = if c == b'.' then cs else c ∷ cs

  abbrev or_else : Option (Token × Text) → Option (Token × Text) → Option (Token × Text)
  or_else none o = o
  or_else (some t) o = some t

  abbrev with_rest : (ℕ → Token) → Text → Option ℕ → Option (Token × Text)
  with_rest f rest none = none
  with_rest f rest (some n) = some (f n, rest)

  -- The alternatives in their order, on a run and what follows it.
  unfoldable pub token_of : (run rest : Text) → Option (Token × Text)
  token_of run rest =
      or_else
        (if begins_digit (drop_spaces (drop_dot rest))
          then with_rest month_token (drop_dot rest) (month_from 1 month_names run)
          else none)
        (or_else (with_rest year_token rest (year_of run)) (
          or_else (with_rest day_token rest (day_of run)) (
            if is_one_of run ("through" ∷ "thru" ∷ "to" ∷ [])
            then some (range_token, rest)
            else none)))

  -- finditer: `skip` characters are left of the last match or run; `gap` is the text behind the last
  -- match, backwards.
  unfoldable pub tokens_from : (skip : ℕ) → (in_gap : Bool) → (gap : Text) → Text → List Found
  tokens_from skip in_gap gap [] = []
  tokens_from (suc k) in_gap gap (c ∷ cs) = elim in_gap [
    | true ↦ tokens_from k true (c ∷ gap) cs
    | false ↦ tokens_from k false [] cs
  ]
  tokens_from zero in_gap gap (c ∷ cs) = elim (u.word c) [
    | true ↦
        let (run, rest) = run_at (c ∷ cs) in
        elim (token_of run rest) [
          | some (t, after) ↦
              record { gap = reverse gap; token = t }
              ∷ tokens_from (length cs - length after) false [] cs
          | none ↦ tokens_from (length cs - length rest) true (c ∷ gap) cs
        ]
    | false ↦ elim (is_dash c) [
      | true ↦ record { gap = reverse gap; token = range_token } ∷ tokens_from zero true [] cs
      | false ↦ tokens_from zero true (c ∷ gap) cs
    ]
  ]

  -- not gap.strip()
  abbrev pub is_blank : Text → Bool
  is_blank gap = not (any (λ c. not (is_space c)) gap)

  abbrev is_filler : ℕ → Bool
  is_filler c = is_space c || c == b',' || c == b';' || c == b'&' || c == b'.'

  -- _LIST_FILLER_RE.sub("", gap) != ""
  unfoldable pub has_unknown : (skip : ℕ) → Text → Bool
  has_unknown skip [] = false
  has_unknown (suc k) (c ∷ cs) = has_unknown k cs
  has_unknown zero (c ∷ cs) =
      let (run, rest) = run_at (c ∷ cs) in
      elim (is_filler c) [
        | true ↦ has_unknown zero cs
        | false ↦ elim (is_one_of run ("and" ∷ [])) [
          | true ↦ has_unknown (length cs - length rest) cs
          | false ↦ true
        ]
      ]
