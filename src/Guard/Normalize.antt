-- ===== src/Guard/Normalize.antt =====
-- ai/transcripts/guard.py: normalize_with_map and normalize. What the Unicode database says of a
-- character is an argument: `fold c` are the characters of NFKD(c).lower() that do not combine.
pub mod Steps
pub mod Cuts
pub mod Starts
use docket_pub.Prelude.{
  ℕ, zero, suc, ◌+◌, Bool, true, false, ◌&&◌, ◌||◌, List, [], ◌∷◌, ◌++◌, map, Text, ◌==◌,
  if◌then◌else◌,
}
use docket_pub.Regex.{is_space}

-- _QUOTES.get(ch, ch)
unfoldable pub straight_quote : ℕ → ℕ
straight_quote c =
    if c == 0x2018 || c == 0x2019 || c == 0x201A || c == 0x2032
    then b'\''
    else if c == 0x201C || c == 0x201D || c == 0x201E || c == 0x2033
    then b'"'
    else c

abbrev pub is_blank_char : ℕ → Bool
is_blank_char c = c == b' ' || c == 9

abbrev pub is_line_break : ℕ → Bool
is_line_break c = c == 13 || c == 10

abbrev pub is_break_char : ℕ → Bool
is_break_char c = is_blank_char c || is_line_break c

-- Whether the text begins with a line break behind optional blanks.
unfoldable pub breaks_line : Text → Bool
breaks_line [] = false
breaks_line (c ∷ cs) = elim (is_blank_char c) [ true ↦ breaks_line cs | false ↦ is_line_break c ]

-- What the loop does with a character; `joining` while it skips the break behind a hyphen.
pub data Kind : Type 0 where
  in_break soft_hyphen joins space letter : Kind

unfoldable pub kind_of : (joining : Bool) → ℕ → Text → Kind
unfolding is_space
kind_of joining c rest =
    if joining && is_break_char c
    then in_break
    else if c == 0xAD
    then soft_hyphen
    else if c == b'-' && breaks_line rest
    then joins
    else if is_space c
    then space
    else letter

-- A character of the result with the offset that it stands for.
abbrev pub Mapped : Type 0
Mapped = List (ℕ × ℕ)

-- m[i]; the code asks only below the length.
abbrev pub offset_at : Mapped → ℕ → ℕ
offset_at [] i = 0
offset_at (p ∷ ps) zero = p.1
offset_at (p ∷ ps) (suc i) = offset_at ps i

abbrev pub tagged : ℕ → Text → Mapped
tagged i = map (λ c. (c, i))

abbrev pub is_nonempty : Text → Bool
is_nonempty [] = false
is_nonempty (_ ∷ _) = true

abbrev pub lead_space : Bool → ℕ → Mapped
lead_space true i = (b' ', i) ∷ []
lead_space false i = []

module _ (fold : ℕ → Text) where
  abbrev pub folded : ℕ → Text
  folded c = fold (straight_quote c)

  -- The loop at offset `i`: whether it skips a break, whether a space is pending, and whether the
  -- result has begun.
  unfoldable pub normalize_from : (joining pending begun : Bool) → ℕ → Text → Mapped
  normalize_from joining pending begun i [] = []
  normalize_from joining pending begun i (c ∷ cs) = elim (kind_of joining c cs) [
    | in_break ↦ normalize_from true pending begun (i + 1) cs
    | soft_hyphen ↦ normalize_from false pending begun (i + 1) cs
    | joins ↦ normalize_from true pending begun (i + 1) cs
    | space ↦ normalize_from false true begun (i + 1) cs
    | letter ↦
        lead_space (pending && begun) i
        ++ (tagged i (folded c)
            ++ normalize_from false false (begun || is_nonempty (folded c)) (i + 1) cs)
  ]

  unfoldable pub normalize_with_map : Text → Mapped
  normalize_with_map = normalize_from false false false 0

  unfoldable pub normalize : Text → Text
  normalize s = map (λ p. p.0) (normalize_with_map s)
