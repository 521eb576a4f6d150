-- ===== src/Guard/Find.antt =====
-- ai/transcripts/guard.py: find_citation and window. difflib is an argument: `blocks` are the
-- matching blocks of two texts, less the empty ones, and `ratio` their similarity in the units of
-- the threshold. `window_length n` is int(n * 1.15) + 4. A set of offsets is kept in order.
pub mod Texts
pub mod Exact
use docket_pub.Prelude.{
  ℕ, zero, suc, ◌+◌, ◌-◌, Bool, true, false, ◌&&◌, Option, none, some, List, [], ◌∷◌, ◌++◌, map,
  Text, ltb, ◌==◌, if◌then◌else◌, length, add_number,
}
use docket_pub.Discrepancies.Types.{exact, fuzzy, missing}
use docket_pub.Discrepancies.Citations.{Found, slice}
use docket_pub.Guard.Normalize.{Mapped, offset_at, normalize, normalize_with_map}

unfoldable pub starts_with : Text → Text → Bool
starts_with [] s = true
starts_with (p ∷ ps) [] = false
starts_with (p ∷ ps) (c ∷ cs) = p == c && starts_with ps cs

-- s.find(p)
unfoldable pub find_text : Text → Text → Option ℕ
find_text p [] = if starts_with p [] then some 0 else none
find_text p (c ∷ cs) =
    let rest = find_text p cs in
    if starts_with p (c ∷ cs) then some 0 else elim rest [ none ↦ none | some i ↦ some (suc i) ]

abbrev pub characters : Mapped → Text
characters = map (λ p. p.0)

abbrev pub nothing_found : Found
nothing_found = record { kind = missing; start = 0; end = 0 }

-- s.split(" ")
abbrev pub put_char : ℕ → List Text → List Text
put_char c [] = (c ∷ []) ∷ []
put_char c (w ∷ ws) = (c ∷ w) ∷ ws

unfoldable pub split_spaces : Text → List Text
split_spaces [] = [] ∷ []
split_spaces (c ∷ cs) =
    let rest = split_spaces cs in if c == b' ' then [] ∷ rest else put_char c rest

-- " ".join
abbrev join_words : List Text → Text
join_words [] = []
join_words (w ∷ []) = w
join_words (w ∷ v ∷ ws) = w ++ (b' ' ∷ join_words (v ∷ ws))

-- words[k:k + 3] for every k from 0, at least once.
unfoldable pub shingles : List Text → List Text
shingles [] = []
shingles (a ∷ b ∷ c ∷ d ∷ ws) = join_words (a ∷ b ∷ c ∷ []) ∷ shingles (b ∷ c ∷ d ∷ ws)
shingles (a ∷ ws) = join_words (a ∷ ws) ∷ []

abbrev max_fuzzy_anchors : ℕ
max_fuzzy_anchors = 50

-- The inner while loop, over the rest of the source at offset `pos`.
unfoldable pub add_hits : (shingle : Text) (off pos : ℕ) → Text → List ℕ → List ℕ
add_hits shingle off pos [] anchors = anchors
add_hits shingle off pos (c ∷ cs) anchors = add_hits shingle off (pos + 1) cs (
    if starts_with shingle (c ∷ cs) && ltb (length anchors) max_fuzzy_anchors
    then add_number (pos - off) anchors
    else anchors)

abbrev offset_or_zero : Option ℕ → ℕ
offset_or_zero none = 0
offset_or_zero (some i) = i

unfoldable pub anchors_of : (ne ns : Text) → List Text → List ℕ → List ℕ
anchors_of ne ns [] anchors = anchors
anchors_of ne ns (s ∷ ss) anchors = anchors_of ne ns ss (
    if ltb (length s) 8 then anchors else add_hits s (offset_or_zero (find_text s ne)) 0 ns anchors)

-- A matching block: its offset in the second text, and its size.
pub record Block : Type 0 where
  pub at : ℕ
  pub size : ℕ

abbrev last_end : Block → List Block → ℕ
last_end b [] = b.at + b.size
last_end b (c ∷ cs) = last_end c cs

-- best, best_span
pub record Best : Type 0 where
  pub score : ℕ
  pub lo : ℕ
  pub hi : ℕ

module _ (fold : ℕ → Text) (blocks : Text → Text → List Block) (ratio : Text → Text → ℕ)
    (window_length : ℕ → ℕ) where
  abbrev tighten : (start : ℕ) → List Block → Option (ℕ × ℕ)
  tighten start [] = none
  tighten start (b ∷ bs) = some (start + b.at, start + last_end b bs)

  -- One window.
  unfoldable pub try_window : (ne ns : Text) (start : ℕ) → Best → Best
  try_window ne ns start best =
      elim (tighten start (blocks ne (slice ns start (start + window_length (length ne))))) [
        | none ↦ best
        | some (lo, hi) ↦
            let r = ratio ne (slice ns lo hi) in
            if ltb best.score r then record { score = r; lo = lo; hi = hi } else best
      ]

  -- range(start, stop, 4), in at most `rounds` rounds.
  unfoldable pub try_windows : (rounds : ℕ) (ne ns : Text) (start stop : ℕ) → Best → Best
  try_windows zero ne ns start stop best = best
  try_windows (suc n) ne ns start stop best =
      let next = try_windows n ne ns (start + 4) stop (try_window ne ns start best) in
      if ltb start stop then next else best

  abbrev lower_end : ℕ → ℕ → ℕ
  lower_end a b = if ltb a b then a else b

  -- A range of at most seventeen offsets, so at most five windows.
  unfoldable pub try_anchors : (ne ns : Text) → List ℕ → Best → Best
  try_anchors ne ns [] best = best
  try_anchors ne ns (a ∷ as') best =
      try_anchors ne ns as' (try_windows 5 ne ns (a - 8) (lower_end (a + 9) (length ns)) best)

  module _ (threshold : ℕ) where
    abbrev fuzzy_result : Mapped → Best → Found
    fuzzy_result m best = if ltb best.score threshold then nothing_found else record {
      kind = fuzzy;
      start = offset_at m best.lo;
      end = offset_at m (best.hi - 1) + 1;
    }

    unfoldable pub fuzzy_find : (ne : Text) → Mapped → Found
    fuzzy_find ne m = fuzzy_result m (
        try_anchors ne (characters m) (anchors_of ne (characters m) (shingles (split_spaces ne)) [])
          (record { score = 0; lo = 0; hi = 0 }))

    abbrev pub find_normalized : (ne : Text) → Mapped → Found
    find_normalized [] m = nothing_found
    find_normalized (c ∷ cs) m = elim (find_text (c ∷ cs) (characters m)) [
      | some pos ↦ record {
        kind = exact;
        start = offset_at m pos;
        end = offset_at m (pos + length cs) + 1;
      }
      | none ↦ fuzzy_find (c ∷ cs) m
    ]

    unfoldable pub find_citation : Text → Text → Found
    find_citation excerpt source =
        find_normalized (normalize fold excerpt) (normalize_with_map fold source)

-- The source around a span.
unfoldable pub source_window : Text → (start end radius : ℕ) → Text
source_window source start end radius =
    slice source (start - radius)
      (if ltb (end + radius) (length source) then end + radius else length source)
