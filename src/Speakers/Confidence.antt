-- ===== src/Speakers/Confidence.antt =====
-- ai/transcripts/speakers.py: _quote_verified and apply_confidence_rules. A thousandth of a confidence
-- is `unit` units, and `rounded` rounds to thousandths.
pub mod Earned
use docket_pub.Prelude.{
  ℕ, ◌*◌, Bool, true, false, ◌&&◌, ◌||◌, not, Option, none, some, List, [], ◌∷◌, Text, leb, keep,
  length, contains, has_text, same_text, if◌then◌else◌,
}
use docket_pub.Discrepancies.Citations.{strip}
use docket_pub.Guard.Normalize.{normalize}
use docket_pub.Guard.Find.{find_text}
use docket_pub.Speakers.RollCall.{response_words}
use docket_pub.Speakers.Types.{
  SpeakerAssignment, Signal, roll_call, addressed_by_chair, self_identification, sample_inference,
  StoredMethod, by_roll_call, by_chair, llm_inference,
}

abbrev pub min_quote_chars : ℕ
min_quote_chars = 8

-- re.sub(r"[^a-z]", "", q)
abbrev letters_of : Text → Text
letters_of = keep (λ c. leb b'a' c && leb c b'z')

-- q in text
unfoldable pub occurs_in : Text → Text → Bool
occurs_in q text = elim (find_text q text) [ none ↦ false | some _ ↦ true ]

abbrev is_roll_call : Signal → Bool
is_roll_call roll_call = true
is_roll_call _ = false

abbrev pub text_or_empty : Option Text → Text
text_or_empty none = []
text_or_empty (some t) = t

-- _DB_METHOD
unfoldable pub stored_method : Signal → StoredMethod
stored_method roll_call = by_roll_call
stored_method addressed_by_chair = by_chair
stored_method self_identification = llm_inference
stored_method sample_inference = llm_inference

-- The waiver for a short quote.
abbrev pub is_response : Signal → Text → Bool
is_response s q = is_roll_call s && has_text (letters_of q) response_words

-- `id is not None and id not in roster_ids`
abbrev pub is_stranger : List ℕ → Option ℕ → Bool
is_stranger roster none = false
is_stranger roster (some n) = not (contains n roster)

-- What apply_confidence_rules returns.
pub record Judged : Type 0 where
  pub confidence : ℕ
  pub method : StoredMethod
  pub verified : Bool

module _ (fold : ℕ → Text) where
  abbrev pub verified_text : Signal → Text → Text → Bool
  verified_text s [] text = false
  verified_text s (c ∷ cs) text =
      (leb min_quote_chars (length (c ∷ cs)) || is_response s (c ∷ cs)) && occurs_in (c ∷ cs) text

  unfoldable pub quote_verified : Signal → (quote text : Text) → Bool
  quote_verified s quote text = verified_text s (strip (normalize fold quote)) text

  -- q1, and q2.
  unfoldable pub first_verified : SpeakerAssignment → Text → Bool
  first_verified a text = quote_verified a.method a.evidence_quote text

  unfoldable pub second_verified : SpeakerAssignment → Text → Bool
  second_verified a text =
      quote_verified a.method (text_or_empty a.evidence_quote_2) text
      && not (
          same_text (normalize fold (text_or_empty a.evidence_quote_2))
            (normalize fold a.evidence_quote))

  -- The method that is left of the model's.
  unfoldable pub method_kept : SpeakerAssignment → Text → List ℕ → Signal
  method_kept a text roster =
      if first_verified a text && not (is_stranger roster a.council_member_id)
      then a.method
      else sample_inference

  module _ (unit : ℕ) (rounded : ℕ → ℕ) where
    -- CONFIDENCE_CAPS
    unfoldable pub cap_of : Signal → (q1 q2 : Bool) → ℕ
    cap_of sample_inference q1 q2 = 550 * unit
    cap_of _ q1 q2 = if q1 && q2 then 950 * unit else 750 * unit

    abbrev pub lesser : ℕ → ℕ → ℕ
    lesser a b = if leb a b then a else b

    -- `text` is the text of the cluster as it was spoken.
    unfoldable pub apply_confidence_rules :
        SpeakerAssignment → (text : Text) → (roster_ids : List ℕ) → Judged
    apply_confidence_rules a spoken roster =
        let text = normalize fold spoken in
        let q1 = first_verified a text in
        let method = method_kept a text roster in
        record {
          confidence = rounded (lesser a.confidence (cap_of method q1 (second_verified a text)));
          method = stored_method method;
          verified = q1;
        }
