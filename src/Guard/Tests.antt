-- ===== src/Guard/Tests.antt =====
-- guard.py on short texts.
use docket_pub.Prelude.{
  ℕ, ◌+◌, ◌≡◌, refl, Bool, ◌&&◌, List, [], ◌∷◌, ◌++◌, Text, codes, leb, if◌then◌else◌,
}
use docket_pub.Discrepancies.Types.{exact}
use docket_pub.Discrepancies.Citations.{Found}
use docket_pub.Guard.Normalize.{
  normalize, normalize_with_map, normalize_from, kind_of, breaks_line, straight_quote,
}
use docket_pub.Guard.Statute.{
  canonical_statute, statute_words, canonical, spelled, compound, unit_value,
}
use docket_pub.Guard.Find.{Block, starts_with, find_text, find_citation}
use docket_pub.Guard.Find.Exact.{IsNonblank, Quotes, find_citation-Quotes}

-- ASCII letters in lower case.
abbrev lower : ℕ → Text
lower c = (if leb b'A' c && leb c b'Z' then c + 32 else c) ∷ []

abbrev is_digit : ℕ → Bool
is_digit c = leb b'0' c && leb c b'9'

abbrev minutes : Text
minutes = codes "The ap-" ++ (10 ∷ codes "proved  Motion.")

abbrev no_blocks : Text → Text → List Block
no_blocks a b = []

abbrev citation : Found
citation =
    find_citation lower no_blocks (λ a b. 0) (λ n. n + 4) 920 (codes "Approved motion") minutes

joined_lines : normalize lower minutes ≡ codes "the approved motion."
unfolding normalize normalize_with_map normalize_from kind_of breaks_line straight_quote
joined_lines = refl

thirty_six : canonical_statute is_digit lower (codes "Section Thirty-six 25") ≡ codes "section3625"
unfolding canonical_statute statute_words canonical spelled compound unit_value normalize
    normalize_with_map normalize_from kind_of breaks_line straight_quote
thirty_six = refl

citation_span : citation ≡ record { kind = exact; start = 4; end = 22 }
unfolding find_citation find_text starts_with normalize normalize_with_map normalize_from kind_of
    breaks_line straight_quote
citation_span = refl

excerpt-IsNonblank : IsNonblank (normalize lower (codes "Approved motion"))
unfolding normalize normalize_with_map normalize_from kind_of breaks_line straight_quote
excerpt-IsNonblank = λ h. cc h

citation_is_exact : citation.kind ≡ exact
citation_is_exact = rw citation_span refl

find_citation-Quotes_example :
    Quotes lower minutes (normalize lower (codes "Approved motion")) citation.start citation.end
find_citation-Quotes_example =
    find_citation-Quotes lower no_blocks (λ a b. 0) (λ n. n + 4) 920 (codes "Approved motion")
      minutes excerpt-IsNonblank citation_is_exact
