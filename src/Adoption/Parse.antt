-- ===== src/Adoption/Parse.antt =====
-- services/minutes_adoption.py: _parse_date_spans and extract_adoption_targets. An
-- AdoptionParseError is none.
pub mod Window
use docket_pub.Prelude.{
  ℕ, zero, suc, ◌+◌, ◌*◌, ◌-◌, Bool, true, false, ◌&&◌, ◌||◌, not, Option, none, some, List, [],
  ◌∷◌, ◌++◌, reverse, Text, codes, leb, ltb, ◌==◌, any, length, if◌then◌else◌,
}
use docket_pub.Regex.{Regex, eps, boundary, seq, alt, lit, spaces, matched}
use docket_pub.Votes.Words.{Unicode}
use docket_pub.Adoption.Types.{Date, is_before, is_date, DateSpan}
use docket_pub.Adoption.Tokens.{
  Token, month_token, year_token, day_token, range_token, Found, tokens_from, is_blank, has_unknown,
}

-- [month, day, year]
pub record Entry : Type 0 where
  pub month : ℕ
  pub day : ℕ
  pub year : Option ℕ

-- The variables of the loop over the tokens; the entries stand backwards.
pub record Reading : Type 0 where
  pub entries : List Entry
  pub range_pairs : List (ℕ × ℕ)
  pub month : Option ℕ
  pub range_from : Option ℕ
  pub last_was_date_part : Bool

abbrev pub begun : Reading
begun = record {
  entries = [];
  range_pairs = [];
  month = none;
  range_from = none;
  last_was_date_part = false;
}

-- e[2] is None, of the last entry
abbrev wants_year : List Entry → Bool
wants_year [] = false
wants_year (e ∷ _) = elim e.year [ none ↦ true | some _ ↦ false ]

-- (y, m, d) <= cutoff
abbrev is_by : Date → Date → Bool
is_by cutoff d = not (is_before cutoff d)

-- The loop over reversed(entries).
unfoldable pub give_year : (cutoff : Date) → (year : ℕ) → (named : Bool) → List Entry → List Entry
give_year cutoff y named [] = []
give_year cutoff y named (e ∷ es) = elim e.year [
  | some _ ↦ e ∷ es
  | none ↦
      let own =
        if named || is_by cutoff (record { year = y; month = e.month; day = e.day })
        then y
        else y - 1 in
      record e { year = some own } ∷ give_year cutoff y false es
]

abbrev is_none : {A : Type 0} → Option A → Bool
is_none none = true
is_none (some _) = false

-- What a token does, `adjacent` or not to the token before.
unfoldable pub read_token : (cutoff : Date) → (adjacent : Bool) → Token → Reading → Reading
read_token cutoff adjacent (month_token m) r = record r {
  month = some m;
  range_from = if adjacent then r.range_from else none;
  last_was_date_part = false;
}
read_token cutoff adjacent (year_token y) r = record r {
  entries = give_year cutoff y true r.entries;
  month = none;
  range_from = none;
  last_was_date_part = ltb 0 (length r.entries);
}
read_token cutoff adjacent (day_token d) r = elim r.month [
  | none ↦ r
  | some m ↦ record r {
    entries = (record { month = m; day = d; year = none }) ∷ r.entries;
    range_pairs = elim r.range_from [
      | none ↦ r.range_pairs
      | some i ↦ if adjacent then r.range_pairs ++ (i, length r.entries) ∷ [] else r.range_pairs
    ];
    range_from = none;
    last_was_date_part = true;
  }
]
read_token cutoff adjacent range_token r = record r {
  range_from = if r.last_was_date_part && adjacent then some (length r.entries - 1) else none;
  last_was_date_part = false;
}

-- minutes\s+not\s+(?:yet\s+)?ready\b, where no word character stands in front.
abbrev not_ready : Regex
not_ready = seq (lit (codes "minutes")) (
    seq spaces (
      seq (lit (codes "not")) (
        seq spaces
          (seq (alt (seq (lit (codes "yet")) spaces) eps) (seq (lit (codes "ready")) boundary)))))

-- date(year, month, day) of the entries, if every one is a date.
unfoldable pub dates_of : List Entry → Option (List Date)
dates_of [] = some []
dates_of (e ∷ es) =
    let rest = dates_of es in
    elim e.year [
      | none ↦ none
      | some y ↦ elim rest [
        | none ↦ none
        | some ds ↦
            let d : Date = record { year = y; month = e.month; day = e.day } in
            if is_date d then some (d ∷ ds) else none
      ]
    ]

abbrev date_at : List Date → ℕ → Option Date
date_at [] i = none
date_at (d ∷ ds) zero = some d
date_at (d ∷ ds) (suc i) = date_at ds i

-- range_end_for[i]: dict keeps the last pair of a key.
unfoldable pub range_end : ℕ → List (ℕ × ℕ) → Option ℕ
range_end i [] = none
range_end i ((a, b) ∷ ps) =
    let rest = range_end i ps in
    elim rest [ some e ↦ some e | none ↦ if a == i then some b else none ]

unfoldable pub is_range_end : ℕ → List (ℕ × ℕ) → Bool
is_range_end i pairs =
    any (λ p. elim (range_end p.0 pairs) [ some e ↦ e == i | none ↦ false ]) pairs

-- A span whose end is not before its start.
unfoldable pub span_to : (start end : Date) → Option DateSpan
span_to d end = if is_before end d then none else some (record { start = d; end = end })

abbrev cons_span : Option DateSpan → Option (List DateSpan) → Option (List DateSpan)
cons_span (some s) (some ss) = some (s ∷ ss)
cons_span _ _ = none

-- The loop over the dates from index i on.
unfoldable pub spans_from :
    (range_pairs : List (ℕ × ℕ))
    → (dates : List Date) → (i : ℕ) → List Date
    → Option (List DateSpan)
spans_from pairs dates i [] = some []
spans_from pairs dates i (d ∷ ds) =
    let rest = spans_from pairs dates (i + 1) ds in
    elim (range_end i pairs) [
      | some j ↦ elim (date_at dates j) [ none ↦ none | some end ↦ cons_span (span_to d end) rest ]
      | none ↦
          if is_range_end i pairs
          then rest
          else cons_span (some (record { start = d; end = d })) rest
    ]

-- if not entries: raise
unfoldable pub spans_of : Reading → Option (List DateSpan)
spans_of r = elim r.entries [
  | [] ↦ none
  | e ∷ es ↦ elim (dates_of (reverse (e ∷ es))) [
    | none ↦ none
    | some dates ↦ spans_from r.range_pairs dates 0 dates
  ]
]

unfoldable pub months_back : (meeting start : Date) → ℕ
months_back meeting start = (meeting.year * 12 + meeting.month) - (start.year * 12 + start.month)

-- The checks of a span.
unfoldable pub is_eligible : (meeting : Date) → DateSpan → Bool
is_eligible meeting s = is_before s.end meeting && leb (months_back meeting s.start) 24

unfoldable pub all_eligible : (meeting : Date) → List DateSpan → Option (List DateSpan)
all_eligible meeting ss = if any (λ s. not (is_eligible meeting s)) ss then none else some ss

module _ (u : Unicode) (value : ℕ → ℕ) where
  unfoldable pub read_tokens : (cutoff : Date) → List Found → Reading → Option Reading
  read_tokens cutoff [] r = some r
  read_tokens cutoff (f ∷ fs) r = elim (wants_year r.entries && has_unknown u value 0 f.gap) [
    | true ↦ none
    | false ↦ read_tokens cutoff fs (read_token cutoff (is_blank u value f.gap) f.token r)
  ]

  -- _NOT_READY_RE.split(title, maxsplit=1)[0]
  unfoldable pub before_not_ready : (in_word : Bool) → Text → Text
  before_not_ready in_word [] = []
  before_not_ready in_word (c ∷ cs) =
      let rest = before_not_ready (u.word c) cs in
      if not in_word && matched u.word not_ready (c ∷ cs) then [] else c ∷ rest

  unfoldable pub parse_date_spans : Text → (adoption_meeting_date : Date) → Option (List DateSpan)
  parse_date_spans title meeting =
      elim (read_tokens meeting (tokens_from u value 0 true [] (before_not_ready false title))
        begun) [ none ↦ none | some r ↦ spans_of r ]

  unfoldable pub extract_adoption_targets :
      Text → (adoption_meeting_date : Date) → Option (List DateSpan)
  extract_adoption_targets title meeting = elim (parse_date_spans title meeting) [
    | none ↦ none
    | some ss ↦ all_eligible meeting ss
  ]
