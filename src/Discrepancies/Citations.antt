-- ===== src/Discrepancies/Citations.antt =====
-- ai/transcripts/compare.py: transcript_text, segment_at, cite and citation_match_for; and
-- page_for_offset of minutes.py. The search itself (guard.find_citation) is an argument.
pub mod Offsets
use docket_pub.Prelude.{
  ℕ, zero, suc, ◌+◌, Bool, true, false, ◌&&◌, not, Option, none, some, List, [], ◌∷◌, ◌++◌, Text,
  leb, ltb, length, any, keep, take, if◌then◌else◌, reverse,
}
use docket_pub.Regex.{is_space}
use docket_pub.Discrepancies.Types.{MatchKind, exact, fuzzy, missing, is_missing}

-- A segment, as far as citations read it.
pub record Spoken : Type 0 where
  pub text : Text
  pub is_silence : Bool
  pub start_s : ℕ

abbrev drop_spaces : Text → Text
drop_spaces [] = []
drop_spaces (c ∷ cs) = elim (is_space c) [ true ↦ drop_spaces cs | false ↦ c ∷ cs ]

-- str.strip
unfoldable pub strip : Text → Text
unfolding is_space
strip s = reverse (drop_spaces (reverse (drop_spaces s)))

pub record TranscriptText : Type 0 where
  pub joined : Text
  pub bounds : List (ℕ × ℕ × Spoken)

-- Whether transcript_text takes the segment up.
unfoldable pub is_heard : Spoken → Bool
is_heard s = not s.is_silence && elim (strip s.text) [ [] ↦ false | _ ∷ _ ↦ true ]

-- " ".join
unfoldable pub join_spaces : List Text → Text
join_spaces [] = []
join_spaces (t ∷ []) = t
join_spaces (t ∷ u ∷ ts) = t ++ (b' ' ∷ join_spaces (u ∷ ts))

-- The bounds, from the offset `pos` on.
unfoldable pub bounds_from : ℕ → List Spoken → List (ℕ × ℕ × Spoken)
bounds_from pos [] = []
bounds_from pos (s ∷ ss) =
    let t = strip s.text in (pos, pos + length t, s) ∷ bounds_from (pos + length t + 1) ss

abbrev texts : List Spoken → List Text
texts [] = []
texts (s ∷ ss) = strip s.text ∷ texts ss

unfoldable pub transcript_text : List Spoken → TranscriptText
transcript_text ss =
    let heard = keep is_heard ss in
    record { joined = join_spaces (texts heard); bounds = bounds_from 0 heard }

-- The loop of segment_at over the bounds.
unfoldable pub segment_in : List (ℕ × ℕ × Spoken) → ℕ → Option Spoken
segment_in [] offset = none
segment_in ((lo, hi, s) ∷ bs) offset =
    if leb lo offset && leb offset hi then some s else segment_in bs offset

unfoldable pub segment_at : TranscriptText → ℕ → Option Spoken
unfolding segment_in
segment_at tt offset = segment_in tt.bounds offset

-- The offsets up to and with `offset`, from the left: bisect_right on a sorted list.
unfoldable pub bisect_right : List ℕ → ℕ → ℕ
bisect_right [] x = 0
bisect_right (o ∷ os) x = if ltb x o then 0 else suc (bisect_right os x)

unfoldable pub page_for_offset : List ℕ → ℕ → ℕ
unfolding bisect_right
page_for_offset offsets x = let p = bisect_right offsets x in if leb p 1 then 1 else p

-- guard.CitationMatch, less the ratio; start and end stand for nothing where the kind is missing.
pub record Found : Type 0 where
  pub kind : MatchKind
  pub start : ℕ
  pub end : ℕ

-- text[start:end]
unfoldable pub slice : Text → ℕ → ℕ → Text
slice s zero end = take end s
slice [] (suc start) end = []
slice (c ∷ cs) (suc start) zero = []
slice (c ∷ cs) (suc start) (suc end) = slice cs start end

unfoldable pub citation_match_for : List MatchKind → MatchKind
citation_match_for [] = missing
citation_match_for (k ∷ ks) =
    if any is_missing (k ∷ ks)
    then missing
    else if any (λ x. elim x [ fuzzy ↦ true | _ ↦ false ]) (k ∷ ks)
    then fuzzy
    else exact

pub record MinutesText : Type 0 where
  pub text : Text
  pub page_offsets : List ℕ

-- The results of cite: kind, excerpt, second, page.
pub record Citation : Type 0 where
  pub kind : MatchKind
  pub excerpt : Option Text
  pub start_s : Option ℕ
  pub page : Option ℕ

abbrev uncited : Option Text → Citation
uncited quote = record { kind = missing; excerpt = quote; start_s = none; page = none }

-- `not quote or not quote.strip()`
unfoldable pub is_blank : Option Text → Bool
is_blank none = true
is_blank (some q) = elim (strip q) [ [] ↦ true | _ ∷ _ ↦ false ]

module _ (find_citation : Text → Text → Found) where
  abbrev start_of : Option Spoken → Option ℕ
  start_of none = none
  start_of (some s) = some s.start_s

  unfoldable pub cite_transcript : Option TranscriptText → Text → Citation
  cite_transcript none q = uncited (some q)
  cite_transcript (some tt) q =
      let cm = find_citation q tt.joined in
      if is_missing cm.kind then uncited (some q) else record {
        kind = cm.kind;
        excerpt = some (slice tt.joined cm.start cm.end);
        start_s = start_of (segment_at tt cm.start);
        page = none;
      }

  unfoldable pub cite_minutes : Option MinutesText → Text → Citation
  cite_minutes none q = uncited (some q)
  cite_minutes (some m) q =
      let cm = find_citation q m.text in
      if is_missing cm.kind then uncited (some q) else record {
        kind = cm.kind;
        excerpt = some (slice m.text cm.start cm.end);
        start_s = none;
        page = some (page_for_offset m.page_offsets cm.start);
      }

  abbrev unless_blank : Option Text → (Text → Citation) → Citation
  unless_blank none f = uncited none
  unless_blank (some q) f = if is_blank (some q) then uncited none else f q

  -- cite with side="transcript", and with any other side.
  unfoldable pub cite :
      (is_transcript : Bool) → Option TranscriptText → Option MinutesText → Option Text → Citation
  cite true tt m quote = unless_blank quote (cite_transcript tt)
  cite false tt m quote = unless_blank quote (cite_minutes m)
