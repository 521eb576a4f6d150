-- ===== src/Adoption/Tests.antt =====
-- The adoption of minutes on short titles.
use docket_pub.Prelude.{
  ℕ, ◌+◌, ◌-◌, ◌≡◌, refl, Bool, true, false, ◌&&◌, ◌||◌, Option, none, some, List, [], ◌∷◌, map,
  Text, codes, leb, ◌==◌, All, if◌then◌else◌,
}
use docket_pub.Regex.{fold, is_space, matched}
use docket_pub.Votes.Words.{Unicode}
use docket_pub.Adoption.Types.{Date, DateSpan, is_before, is_date, days_in, is_leap}
use docket_pub.Adoption.Tokens.{
  run_at, month_from, number_of, year_of, day_of, token_of, tokens_from, has_unknown,
  is_adoption_title,
}
use docket_pub.Adoption.Parse.{
  extract_adoption_targets, parse_date_spans, read_tokens, read_token, give_year, before_not_ready,
  spans_of, spans_from, dates_of, range_end, is_range_end, span_to, all_eligible, is_eligible,
  months_back,
}
use docket_pub.Adoption.Parse.Window.{IsTarget, targets_in_window}
use docket_pub.Adoption.Sweep.{Meeting, Line, Candidate, sweep_candidates, sweep_adoptions}
use docket_pub.Adoption.Sweep.Again.{second_sweep_rests}
use docket_pub.Adoption.Sweep.Flips.{Steps, sweep_adoptions-Steps}

abbrev is_digit : ℕ → Bool
is_digit c = leb b'0' c && leb c b'9'

abbrev ascii : Unicode
ascii = record {
  lower = map (λ c. if leb b'A' c && leb c b'Z' then c + 32 else c);
  word = λ c. is_digit c || (leb b'a' c && leb c b'z') || (leb b'A' c && leb c b'Z') || c == b'_';
  digit = is_digit;
}

abbrev value : ℕ → ℕ
value c = c - b'0'

abbrev date : ℕ → ℕ → ℕ → Date
date y m d = record { year = y; month = m; day = d }

abbrev days : Date → Date → DateSpan
days a b = record { start = a; end = b }

abbrev listed : Text
listed = codes "Dec. 30 and Jan 6, 2026"

abbrev listed_spans : List DateSpan
listed_spans = days (date 2025 12 30) (date 2025 12 30) ∷ days (date 2026 1 6) (date 2026 1 6) ∷ []

-- The first date gets the year before, since it would be behind the adopting meeting.
read_list : extract_adoption_targets ascii value listed (date 2026 1 13) ≡ some listed_spans
unfolding extract_adoption_targets parse_date_spans read_tokens read_token give_year
    before_not_ready spans_of spans_from dates_of range_end is_range_end span_to all_eligible
    is_eligible months_back run_at month_from number_of year_of day_of token_of tokens_from
    has_unknown is_before is_date days_in is_leap fold is_space matched
read_list = refl

read_range :
    extract_adoption_targets ascii value (codes "Feb 3-24, 2026") (date 2026 3 3)
    ≡ some (days (date 2026 2 3) (date 2026 2 24) ∷ [])
unfolding extract_adoption_targets parse_date_spans read_tokens read_token give_year
    before_not_ready spans_of spans_from dates_of range_end is_range_end span_to all_eligible
    is_eligible months_back run_at month_from number_of year_of day_of token_of tokens_from
    has_unknown is_before is_date days_in is_leap fold is_space matched
read_range = refl

-- A word that is no filler in front of a year that is still missing.
read_misspelled :
    extract_adoption_targets ascii value (codes "May 5, Jume 12, 2026") (date 2026 7 7) ≡ none
unfolding extract_adoption_targets parse_date_spans read_tokens read_token give_year
    before_not_ready spans_of spans_from dates_of range_end is_range_end span_to all_eligible
    is_eligible months_back run_at month_from number_of year_of day_of token_of tokens_from
    has_unknown is_before is_date days_in is_leap fold is_space matched
read_misspelled = refl

adoption_title : is_adoption_title ascii value (codes "Approval of the Minutes") ≡ true
unfolding is_adoption_title matched fold is_space
adoption_title = refl

abbrev held : ℕ → Date → Option Date → Meeting
held n d adopted = record {
  id = n;
  municipality_id = 1;
  meeting_date = d;
  has_minutes = true;
  is_hidden = false;
  minutes_adopted_at = adopted;
}

abbrev meetings : List Meeting
meetings =
    held 1 (date 2025 12 30) none
    ∷ held 2 (date 2026 1 6) (some (date 2026 1 10))
    ∷ held 3 (date 2026 1 13) none
    ∷ []

abbrev lines : List Line
lines =
    record { id = 5; meeting_id = 3; title = codes "Approval of Minutes: Dec. 30 and Jan 6, 2026" }
    ∷ []

targets_in_window_example : All (IsTarget (date 2026 1 13)) listed_spans
targets_in_window_example =
    targets_in_window ascii value listed (date 2026 1 13) listed_spans read_list

sweep_adoptions-Steps_example :
    Steps 1 meetings (sweep_adoptions ascii value 1 (λ _. true) lines meetings).meetings
sweep_adoptions-Steps_example = sweep_adoptions-Steps ascii value 1 (λ _. true) lines meetings

abbrev candidates : List Candidate
candidates =
    record {
      agenda_item_id = 5;
      title = codes "Approval of Minutes: Dec. 30 and Jan 6, 2026";
      adoption_meeting_date = date 2026 1 13;
    }
    ∷ []

abbrev swept : List Meeting
swept =
    (sweep_candidates ascii value 1 candidates
      (record { meetings = meetings; flipped = [] })).meetings

second_sweep_rests_example :
    ((sweep_candidates ascii value 1 candidates
        (record { meetings = swept; flipped = [] })).meetings
      ≡ swept)
    × ((sweep_candidates ascii value 1 candidates
          (record { meetings = swept; flipped = [] })).flipped
        ≡ [])
second_sweep_rests_example =
    second_sweep_rests ascii value 1 candidates (record { meetings = meetings; flipped = [] })
