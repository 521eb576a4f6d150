-- ===== src/Votes/Tiers/Keyword.antt =====
-- analysis/vote_matcher.py: _try_keyword_match. A score is a fraction; `confidence` is the rounded
-- confidence of the best score and the second, if there is one.
use docket_pub.Prelude.{
  ℕ, ◌+◌, ◌*◌, Bool, true, false, ◌&&◌, ◌||◌, Option, none, some, List, [], ◌∷◌, Text, leb, ltb,
  ◌==◌, length, if◌then◌else◌,
}
use docket_pub.Votes.Types.{Vote, Item, text_similarity}
use docket_pub.Votes.Words.{Unicode, or_empty, significant_words, shared_words}
use docket_pub.Votes.Tiers.{Tier, own_text}

-- A pair of `scored`: the shared words of all the words of a title.
pub record Score : Type 0 where
  pub overlap : ℕ
  pub words : ℕ
  pub item_id : ℕ

-- Whether a pair stands before another in the descending order.
unfoldable pub is_above : Score → Score → Bool
is_above a b =
    ltb (b.overlap * a.words) (a.overlap * b.words)
    || (a.overlap * b.words == b.overlap * a.words && ltb b.item_id a.item_id)

unfoldable pub insert_score : Score → List Score → List Score
insert_score a [] = a ∷ []
insert_score a (b ∷ bs) = elim (is_above b a) [ true ↦ b ∷ insert_score a bs | false ↦ a ∷ b ∷ bs ]

-- scored.sort(reverse=True)
unfoldable pub sort_scores : List Score → List Score
sort_scores [] = []
sort_scores (a ∷ bs) = insert_score a (sort_scores bs)

-- best >= numerator / denominator
abbrev pub is_at_least : Score → (numerator denominator : ℕ) → Bool
is_at_least a n d = leb (n * a.words) (a.overlap * d)

-- margin_ratio_ok or margin_abs_ok: half as much again, or 0.15 more.
unfoldable pub has_margin : (best second : Score) → Bool
has_margin a b =
    leb (3 * (b.overlap * a.words)) (2 * (a.overlap * b.words))
    || leb (20 * (b.overlap * a.words) + 3 * (a.words * b.words)) (20 * (a.overlap * b.words))

module _ (u : Unicode) (confidence : Score → Option Score → ℕ) where
  unfoldable pub scores_of : (text_words : List Text) → List Item → List Score
  scores_of ws [] = []
  scores_of ws (i ∷ is) =
      let rest = scores_of ws is in
      elim (significant_words u (or_empty i.title)) [
        | [] ↦ rest
        | t ∷ ts ↦
            record {
              overlap = length (shared_words (t ∷ ts) ws);
              words = length (t ∷ ts);
              item_id = i.id;
            }
            ∷ rest
      ]

  abbrev keyword_tier : Score → Option Score → Option Tier
  keyword_tier best next = some (record {
    item_id = best.item_id;
    confidence = confidence best next;
    method = text_similarity;
  })

  -- The gates on the sorted scores.
  unfoldable pub committed : List Score → Option Tier
  committed [] = none
  committed (best ∷ []) = if is_at_least best 3 10 then keyword_tier best none else none
  committed (best ∷ next ∷ _) =
      if is_at_least best 1 4 && has_margin best next then keyword_tier best (some next) else none

  unfoldable pub try_keyword_match : Vote → List Item → Option Tier
  try_keyword_match v items =
      let ws = significant_words u (own_text v) in
      if ltb (length ws) 3 then none else committed (sort_scores (scores_of ws items))
