-- ===== src/Assembly/Types.antt =====
-- ai/transcripts/schemas.py: Verdict and HuntedDiscrepancy, less what build_rows does not read. A
-- confidence is a number of some unit, which the code only scales and rounds.
use docket_pub.Prelude.{ℕ, Bool, Option, none, some, List, Text}
use docket_pub.Discrepancies.Types.{Category, Severity}
use docket_pub.Discrepancies.Citations.{TranscriptText, MinutesText, Found}

pub record Verdict : Type 0 where
  pub candidate_id : ℕ
  pub is_real : Bool
  pub category : Option Category
  pub severity : Option Severity
  pub title : Option Text
  pub description : Option Text
  pub transcript_quote : Option Text
  pub minutes_quote : Option Text
  pub confidence : ℕ
  pub dismiss_reason : Option Text

pub record HuntedDiscrepancy : Type 0 where
  pub category : Category
  pub severity : Severity
  pub title : Text
  pub description : Text
  pub agenda_item_refs : List ℕ
  pub transcript_quote : Option Text
  pub minutes_quote : Option Text
  pub confidence : ℕ

-- How a stored confidence is made of a given one: as it is, rounded to thousandths, or halved and
-- then rounded.
pub data Scaling : Type 0 where
  as_given rounded halved : Scaling

-- `a if a is not None else b`, and `a or b`.
abbrev pub first_some {ℓ} : {A : Type ℓ} → Option A → Option A → Option A
first_some none o = o
first_some (some a) o = some a

abbrev pub or_else {ℓ} : {A : Type ℓ} → Option A → A → A
or_else none a = a
or_else (some a) b = a

-- What build_rows is given beside the findings: the meeting, the two texts, and the functions that
-- are not modelled. `number_of` is item_numbers.get, `nine_tenths` the confidence 0.9.
pub record Context : Type 0 where
  pub meeting_id : ℕ
  pub compare_prompt_version : ℕ
  pub find_citation : Text → Text → Found
  pub tt : TranscriptText
  pub minutes : Option MinutesText
  pub confidence_of : Scaling → ℕ → ℕ
  pub number_of : ℕ → Option Text
  pub nine_tenths : ℕ
