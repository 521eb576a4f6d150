-- ===== src/Votes/Words.antt =====
-- analysis/vote_matcher.py: the helpers on texts. What the Unicode database says is an argument:
-- `lower` is str.lower, `word` \w and `digit` \d.
use docket_pub.Prelude.{
  ℕ, ◌+◌, ◌*◌, ◌-◌, ◌/◌, Bool, true, false, not, Option, none, some, List, [], ◌∷◌, ◌++◌, map, Text,
  String, codes, leb, ltb, any, keep, length, has_text, if◌then◌else◌,
}
use docket_pub.Discrepancies.Citations.{slice}
use docket_pub.Alignment.Details.{distinct}
use docket_pub.Guard.Find.{find_text}
use docket_pub.Speakers.RollCall.{words_of}
use docket_pub.Votes.Types.{Vote}

pub record Unicode : Type 0 where
  pub lower : Text → Text
  pub word : ℕ → Bool
  pub digit : ℕ → Bool

-- `s or ""`
abbrev pub or_empty : Option Text → Text
or_empty none = []
or_empty (some s) = s

-- needle in haystack
unfoldable pub occurs : Text → Text → Bool
occurs needle haystack = elim (find_text needle haystack) [ none ↦ false | some _ ↦ true ]

-- _named_callout_threshold; the ceiling of 0.6 n is that of 3 n / 5.
unfoldable pub named_callout_threshold : ℕ → Option ℕ
named_callout_threshold n =
    let needed = (3 * n + 4) / 5 in
    if ltb n 2 then none else if leb needed 2 then some 2 else some 3

-- CONSENT_BLOCK_PHRASES
abbrev pub consent_block_phrases : List String
consent_block_phrases =
    "the resolutions and ordinances introduced as consent agenda matters"
    ∷ "consent agenda matters were read by the city clerk" ∷ "all items on the consent agenda"
    ∷ "items on consent" ∷ []

-- _STOP_WORDS
abbrev stop_words : List String
stop_words =
    "a" ∷ "an" ∷ "the" ∷ "of" ∷ "to" ∷ "in" ∷ "for" ∷ "on" ∷ "and" ∷ "or" ∷ "by" ∷ "at" ∷ "is"
    ∷ "was" ∷ "be" ∷ "are" ∷ "with" ∷ "that" ∷ "this" ∷ "from" ∷ "it" ∷ "its" ∷ "no" ∷ "not" ∷ "but"
    ∷ "as" ∷ "has" ∷ "had" ∷ "have" ∷ "been" ∷ "do" ∷ "does" ∷ "did" ∷ "will" ∷ "shall" ∷ "may"
    ∷ "can" ∷ "upon" ∷ "said" ∷ "being" ∷ "hereby" ∷ "councilmember" ∷ "councilmembers" ∷ "motion"
    ∷ "seconded" ∷ "ordinance" ∷ "resolution" ∷ "mayor" ∷ "ayes" ∷ "nays" ∷ "council" ∷ "presiding"
    ∷ "officer" ∷ "chairperson" ∷ "whereupon" ∷ "thereupon" ∷ "adopted" ∷ "approved" ∷ "granted"
    ∷ "item" ∷ "agenda" ∷ []

module _ (u : Unicode) where
  -- _extract_snippet
  unfoldable pub extract_snippet : (haystack needle : Text) → Option Text
  extract_snippet haystack [] = none
  extract_snippet haystack (c ∷ cs) = elim (find_text (u.lower (c ∷ cs)) (u.lower haystack)) [
    | none ↦ none
    | some i ↦
        let stop = i + length (c ∷ cs) + 100 in
        some
          (slice haystack (i - 100) (if ltb stop (length haystack) then stop else length haystack))
  ]

  -- The lower-case text of a vote.
  unfoldable pub vote_text : Vote → Text
  vote_text v = u.lower (or_empty v.raw_text ++ (b' ' ∷ or_empty v.match_context))

  -- _classify_vote(v) == "consent_block"
  unfoldable pub is_consent_block : Vote → Bool
  is_consent_block v = any (λ p. occurs (codes p) (vote_text v)) consent_block_phrases

  -- _significant_words, each word once.
  unfoldable pub significant_words : Text → List Text
  significant_words t =
      keep (λ w. not (has_text w (map codes stop_words)))
        (distinct (keep (λ w. leb 4 (length w)) (words_of (u.lower t))))

-- len(a & b), of sets.
unfoldable pub shared_words : List Text → List Text → List Text
shared_words a b = keep (λ w. has_text w b) a
