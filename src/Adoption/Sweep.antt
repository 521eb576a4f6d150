-- ===== src/Adoption/Sweep.antt =====
-- services/minutes_adoption.py: sweep_adoptions on the rows of meetings, each with its date.
pub mod Flips
pub mod Again
use docket_pub.Prelude.{
  ℕ, ◌+◌, Bool, true, false, ◌&&◌, ◌||◌, not, Option, none, some, List, [], ◌∷◌, ◌++◌, map, Text,
  ltb, ◌==◌, keep, length, find?, if◌then◌else◌,
}
use docket_pub.Votes.Types as VoteTypes
use docket_pub.Votes.Words.{Unicode}
use docket_pub.Votes.Match.Substantive.{Facts}
use docket_pub.Votes.Meeting.{Tables, match_votes_for_meeting}
use docket_pub.Votes.Meeting as Matcher
use docket_pub.Adoption.Types.{Date, is_before, is_upto, same_date, DateSpan, is_range}
use docket_pub.Adoption.Tokens.{is_adoption_title}
use docket_pub.Adoption.Parse.{extract_adoption_targets}

pub record Meeting : Type 0 where
  pub id : ℕ
  pub municipality_id : ℕ
  pub meeting_date : Date
  pub has_minutes : Bool
  pub is_hidden : Bool
  pub minutes_adopted_at : Option Date

-- An agenda item, as the first query reads it.
pub record Line : Type 0 where
  pub id : ℕ
  pub meeting_id : ℕ
  pub title : Text

-- A row of the first query.
pub record Candidate : Type 0 where
  pub agenda_item_id : ℕ
  pub title : Text
  pub adoption_meeting_date : Date

unfoldable pub is_earlier : Candidate → Candidate → Bool
is_earlier a b =
    is_before a.adoption_meeting_date b.adoption_meeting_date
    || (same_date a.adoption_meeting_date b.adoption_meeting_date
        && ltb a.agenda_item_id b.agenda_item_id)

unfoldable pub insert_candidate : Candidate → List Candidate → List Candidate
insert_candidate a [] = a ∷ []
insert_candidate a (b ∷ bs) = elim (is_earlier b a) [
  | true ↦ b ∷ insert_candidate a bs
  | false ↦ a ∷ b ∷ bs
]

-- The first query; `passed` has the meetings with a vote that passed.
unfoldable pub candidates_of :
    (municipality_id : ℕ) → (passed : ℕ → Bool) → List Meeting → List Line → List Candidate
candidates_of city passed meetings [] = []
candidates_of city passed meetings (l ∷ ls) =
    let rest = candidates_of city passed meetings ls in
    elim (find? (λ m. m.id == l.meeting_id && m.municipality_id == city && passed m.id) meetings) [
      | none ↦ rest
      | some m ↦
          insert_candidate
            (record {
              agenda_item_id = l.id;
              title = l.title;
              adoption_meeting_date = m.meeting_date;
            })
            rest
    ]

-- The rows of meetings, and the ids that have flipped.
pub record Swept : Type 0 where
  pub meetings : List Meeting
  pub flipped : List ℕ

unfoldable pub is_unadopted : Meeting → Bool
is_unadopted m = elim m.minutes_adopted_at [ none ↦ true | some _ ↦ false ]

abbrev pub adopted_on : Date → Meeting → Meeting
adopted_on d m = record m { minutes_adopted_at = some d }

-- UPDATE meetings SET minutes_adopted_at = d WHERE ... AND minutes_adopted_at IS NULL
unfoldable pub flip_where : (Meeting → Bool) → Date → Swept → Swept
flip_where p d s = record {
  meetings = map (λ m. if p m && is_unadopted m then adopted_on d m else m) s.meetings;
  flipped = s.flipped ++ map (λ m. m.id) (keep (λ m. p m && is_unadopted m) s.meetings);
}

-- A row that a range names.
unfoldable pub is_in_range : (municipality_id : ℕ) → (adopting : Date) → DateSpan → Meeting → Bool
is_in_range city adopting s m =
    m.municipality_id == city
    && is_upto s.start m.meeting_date
    && is_upto m.meeting_date s.end
    && is_before m.meeting_date adopting
    && m.has_minutes
    && not m.is_hidden

-- A row that a single date names.
unfoldable pub is_named : (municipality_id : ℕ) → Date → Meeting → Bool
is_named city d m = m.municipality_id == city && same_date m.meeting_date d && not m.is_hidden

-- Of several rows on the date, those with minutes.
unfoldable pub is_chosen : (municipality_id : ℕ) → Date → (several : Bool) → Meeting → Bool
is_chosen city d several m = is_named city d m && (not several || m.has_minutes)

-- The body of the loop over the spans. The loop over the rows of a single date names each by its
-- primary key.
unfoldable pub sweep_span : (municipality_id : ℕ) → (adopting : Date) → DateSpan → Swept → Swept
sweep_span city adopting s w =
    let several = ltb 1 (length (keep (is_named city s.start) w.meetings)) in
    if is_range s
    then flip_where (is_in_range city adopting s) adopting w
    else flip_where (is_chosen city s.start several) adopting w

unfoldable pub sweep_spans :
    (municipality_id : ℕ) → (adopting : Date) → List DateSpan → Swept → Swept
sweep_spans city adopting [] w = w
sweep_spans city adopting (s ∷ ss) w = sweep_spans city adopting ss (sweep_span city adopting s w)

module _ (u : Unicode) (value : ℕ → ℕ) (city : ℕ) where
  -- The body of the loop over the candidates.
  unfoldable pub sweep_candidate : Candidate → Swept → Swept
  sweep_candidate c w = elim (is_adoption_title u value c.title) [
    | false ↦ w
    | true ↦ elim (extract_adoption_targets u value c.title c.adoption_meeting_date) [
      | none ↦ w
      | some spans ↦ sweep_spans city c.adoption_meeting_date spans w
    ]
  ]

  unfoldable pub sweep_candidates : List Candidate → Swept → Swept
  sweep_candidates [] w = w
  sweep_candidates (c ∷ cs) w = sweep_candidates cs (sweep_candidate c w)

  -- The transaction of sweep_adoptions.
  unfoldable pub sweep_adoptions : (passed : ℕ → Bool) → List Line → List Meeting → Swept
  sweep_adoptions passed lines meetings =
      sweep_candidates (candidates_of city passed meetings lines)
        (record { meetings = meetings; flipped = [] })

-- What the matcher reads of a meeting behind the transaction.
abbrev matcher_row : (ℕ → Matcher.Fetch) → Meeting → Matcher.Meeting
matcher_row fetch m = record { id = m.id; is_adopted = not (is_unadopted m); minutes = fetch m.id }

-- The loop over the flipped meetings; `fetch` is what the download of their minutes comes to.
unfoldable pub promote :
    (second : ℕ) (u : Unicode) (f : Facts) (items : List VoteTypes.Item)
    (votes : List VoteTypes.Vote)
    → (ℕ → Matcher.Fetch)
    → List Meeting
    → (flipped : List ℕ) → Tables
    → Tables
promote second u f items votes fetch meetings [] t = t
promote second u f items votes fetch meetings (m ∷ ms) t =
    promote second u f items votes fetch meetings ms
      (match_votes_for_meeting second u f items votes (map (matcher_row fetch) meetings) m t).tables
