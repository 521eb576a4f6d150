-- ===== src/Speakers/Tests.antt =====
-- speakers.py on one cluster.
use docket_pub.Prelude.{
  [], Bool, map, ℕ, ◌*◌, ◌≤◌, ◌<◌, ◌≡◌, ◌≢◌, ◌⊎◌, refl, false, none, some, List, ◌∷◌, Text, codes,
  arith, All, keep, leb, if◌then◌else◌, ◌&&◌, ◌+◌,
}
use docket_pub.Discrepancies.Citations.{strip}
use docket_pub.Guard.Normalize.{
  normalize, normalize_with_map, normalize_from, kind_of, breaks_line, straight_quote,
}
use docket_pub.Guard.Find.{find_text, starts_with}
use docket_pub.Speakers.Types.{Role, Signal, SpeakerAssignment, Speaker, RosterMember}
use docket_pub.Speakers.RollCall.{
  Line, speech, find_roll_call_pairs, pairs_from, response_to, mentioned_members, is_short_response,
  tokens, words_of, neighbours, same_label,
}
use docket_pub.Speakers.RollCall.Answers.{StandsAt, find_roll_call_pairs-StandsAt}
use docket_pub.Speakers.Confidence.{
  apply_confidence_rules, Judged, occurs_in, stored_method, quote_verified, first_verified,
  second_verified, method_kept, cap_of, text_or_empty,
}
use docket_pub.Speakers.Confidence.Earned.{IsVerified, IsSeated, confidence_earned}
use docket_pub.Speakers.Write.{Utterance, write_answer}
use docket_pub.Speakers.Write.Written.{IsOldOrAnswered, answer_written}

-- ASCII letters in lower case.
abbrev lower : ℕ → Text
lower c = (if leb b'A' c && leb c b'Z' then c + 32 else c) ∷ []

abbrev no_rounding : ℕ → ℕ
no_rounding n = n

abbrev assignment : SpeakerAssignment
assignment = record {
  cluster_label = codes "S1";
  council_member_id = some 3;
  display_name = none;
  role = Role.council;
  confidence = 900;
  method = Signal.addressed_by_chair;
  evidence_quote = codes "Thank you, Chair";
  evidence_quote_2 = none;
}

abbrev roster : List RosterMember
roster = record { id = 3; name = codes "Ann Tate"; surname = codes "tate" } ∷ []

abbrev spoken : Text
spoken = codes " Thank you, chair. I move approval."

abbrev utterances : List Utterance
utterances =
    record { text = codes "Thank you, chair. I move approval."; cluster_label = some (codes "S1") }
    ∷ []

abbrev speaker : Speaker
speaker = record {
  id = 1;
  meeting_id = 7;
  cluster_label = codes "S1";
  council_member_id = none;
  display_name = none;
  role = none;
  confidence = none;
  method = none;
  is_manual = false;
  needs_review = false;
}

abbrev judged : Judged
judged = apply_confidence_rules lower 1 no_rounding assignment spoken (3 ∷ [])

-- One quote is found, so 0.75 is the cap.
one_signal : judged.confidence ≡ 750
unfolding apply_confidence_rules quote_verified first_verified second_verified method_kept cap_of
    occurs_in stored_method strip find_text starts_with normalize normalize_with_map normalize_from
    kind_of breaks_line straight_quote
one_signal = refl

keeps_order : (m n : ℕ) → m ≤ n → no_rounding m ≤ no_rounding n
keeps_order m n h = h

keeps_thousandths : (n : ℕ) → no_rounding (n * 1) ≡ n * 1
keeps_thousandths n = refl

confidence_earned_example :
    (judged.confidence ≤ 950 * 1)
    × ((judged.confidence ≤ 550 * 1)
        ⊎ (IsVerified lower Signal.addressed_by_chair
              (codes "Thank you, Chair")
              (normalize lower spoken)
            × IsSeated (3 ∷ []) (some 3)))
    × ((judged.confidence ≤ 750 * 1)
        ⊎ (IsVerified lower Signal.addressed_by_chair (text_or_empty none) (normalize lower spoken)
            × (normalize lower (text_or_empty none) ≢ normalize lower (codes "Thank you, Chair"))))
confidence_earned_example =
    confidence_earned lower 1 no_rounding keeps_order keeps_thousandths assignment spoken (3 ∷ [])

one_positive : 0 < 1
one_positive = omega arith

abbrev behind : List Speaker
behind =
    (write_answer lower 1 no_rounding 7 roster (codes "S1" ∷ []) utterances (assignment ∷ [])
      (speaker ∷ [])).0

answer_written_example :
    All
      (IsOldOrAnswered lower 1 no_rounding 7 roster
        (codes "S1" ∷ [])
        utterances
        (assignment ∷ [])
        (speaker ∷ []))
      behind
    × (keep (λ s. s.is_manual) behind ≡ keep (λ s. s.is_manual) (speaker ∷ []))
answer_written_example =
    answer_written lower 1 no_rounding keeps_order keeps_thousandths one_positive 7 roster
      (codes "S1" ∷ []) utterances (assignment ∷ []) (speaker ∷ [])

abbrev line : ℕ → ℕ → Text → Text → Line
line n time label text = record {
  seq = n;
  start_s = time;
  end_s = time + 2;
  text = text;
  cluster_label = some label;
  is_silence = false;
}

abbrev same_word : Text → Text → Bool
same_word a b = false

-- The clerk reads a name, pauses, and gets an answer.
abbrev roll : List Line
roll =
    line 1 0 (codes "S0") (codes "Councilor Tate")
    ∷ line 2 3 (codes "S0") (codes "Um")
    ∷ line 3 6 (codes "S1") (codes "Here.")
    ∷ []

one_pair : map (λ p. p.response_seq) (find_roll_call_pairs lower same_word 8 roster roll) ≡ 3 ∷ []
unfolding find_roll_call_pairs pairs_from response_to mentioned_members is_short_response tokens
    words_of neighbours same_label speech strip normalize normalize_with_map normalize_from kind_of
    breaks_line straight_quote
one_pair = refl

find_roll_call_pairs-StandsAt_example :
    All
      (StandsAt lower same_word 8 roster (speech roll))
      (find_roll_call_pairs lower same_word 8 roster roll)
find_roll_call_pairs-StandsAt_example = find_roll_call_pairs-StandsAt lower same_word 8 roster roll
