-- ===== src/Assembly/Rows.antt =====
-- ai/transcripts/compare.py: the rows that build_rows makes of the aligner's candidates.
use docket_pub.Prelude.{
  ℕ, ◌-◌, Bool, true, false, Option, none, some, List, [], ◌∷◌, ◌++◌, Text, codes, take, drop,
  length, ◌==◌, sorted_set, str_number, if◌then◌else◌,
}
use docket_pub.Discrepancies.Types.{
  Category, vote_outcome, wording, omission, addition, sequence, speaker, Severity, material, minor,
  MatchKind, exact, missing, Origin, aligner, proposed, dismissed_by_model, is_missing,
}
use docket_pub.Discrepancies.Citations.{Citation, cite, citation_match_for}
use docket_pub.Discrepancies.Recompare.{NewRow}
use docket_pub.Alignment.Types.{Event, VoteRow, Candidate, stated}
use docket_pub.Assembly.Types.{
  Context, Verdict, Scaling, as_given, rounded, halved, first_some, or_else,
}

abbrev pub id_of : Option Event → Option ℕ
id_of none = none
id_of (some e) = some e.id

abbrev start_of : Option Event → Option ℕ
start_of none = none
start_of (some e) = e.start_s

abbrev page_of : Option Event → Option ℕ
page_of none = none
page_of (some e) = e.page

abbrev quote_of : Option Event → Option Text
quote_of none = none
quote_of (some e) = e.detail.quote

-- min(refs) if refs else None
abbrev least : List ℕ → Option ℕ
least refs = elim (sorted_set refs) [ [] ↦ none | n ∷ _ ↦ some n ]

-- model_category
unfoldable pub model_category : Category → Category
model_category vote_outcome = wording
model_category omission = omission
model_category addition = addition
model_category wording = wording
model_category sequence = sequence
model_category speaker = speaker

abbrev pub is_vote_outcome : Category → Bool
is_vote_outcome vote_outcome = true
is_vote_outcome _ = false

abbrev commas : List Text → Text
commas [] = []
commas (t ∷ []) = t
commas (t ∷ u ∷ ts) = t ++ (codes ", " ++ commas (u ∷ ts))

abbrev labels : (ℕ → Option Text) → List ℕ → List Text
labels number_of [] = []
labels number_of (n ∷ ns) = or_else (stated (number_of n)) (str_number n) ∷ labels number_of ns

-- `(raw or "")[-300:] or None`
abbrev last_300 : Option Text → Option Text
last_300 raw = elim (stated raw) [ none ↦ none | some s ↦ some (drop (length s - 300) s) ]

abbrev raw_text_of : Option VoteRow → Option Text
raw_text_of none = none
raw_text_of (some v) = v.raw_text

abbrev kind_of_raw : Option Text → MatchKind
kind_of_raw raw = elim (stated raw) [ none ↦ missing | some _ ↦ exact ]

-- 0.5 if match == "missing" else 1.0
abbrev pub scaling_for : MatchKind → Scaling
scaling_for m = if is_missing m then halved else rounded

-- by_id.get(n); of two candidates with one id, the dict keeps the later.
unfoldable pub by_id : List Candidate → ℕ → Option Candidate
by_id [] n = none
by_id (c ∷ cs) n = elim (by_id cs n) [
  | some d ↦ some d
  | none ↦ if c.candidate_id == n then some c else none
]

module _ (ctx : Context) where
  -- base
  unfoldable pub base :
      Category
      → Severity
      → (title desc : Text) → (t_ev m_ev : Option Event) → (refs : List ℕ) → Origin
      → NewRow
  base cat sev title desc t_ev m_ev refs origin = record {
    meeting_id = ctx.meeting_id;
    agenda_item_id = least refs;
    category = cat;
    severity = sev;
    title = title;
    description = desc;
    transcript_event_id = id_of t_ev;
    minutes_event_id = id_of m_ev;
    transcript_excerpt = none;
    transcript_start_s = start_of t_ev;
    minutes_excerpt = none;
    minutes_page = page_of m_ev;
    citation_match = missing;
    confidence = none;
    origin = origin;
    review_state = proposed;
    reject_reason = none;
    prompt_version = ctx.compare_prompt_version;
  }

  abbrev pub cite_t : Option Text → Citation
  cite_t q = cite ctx.find_citation true (some ctx.tt) none q

  abbrev pub cite_m : Option Text → Citation
  cite_m q = cite ctx.find_citation false none ctx.minutes q

  abbrev pub with_transcript : Citation → NewRow → NewRow
  with_transcript c r = record r {
    transcript_excerpt = c.excerpt;
    transcript_start_s = first_some c.start_s r.transcript_start_s;
  }

  abbrev pub with_minutes : Citation → NewRow → NewRow
  with_minutes c r = record r {
    minutes_excerpt = c.excerpt;
    minutes_page = first_some c.page r.minutes_page;
  }

  abbrev vote_title : List ℕ → Text
  vote_title refs =
      codes "Vote outcome differs from the minutes for item "
      ++ commas (labels ctx.number_of (sorted_set refs))

  -- The minutes' side of a vote row: the paired event's, or else the votes row's text.
  abbrev vote_minutes : Candidate → NewRow → MatchKind × NewRow
  vote_minutes c r = elim c.minutes_event [
    | some e ↦ let cm = cite_m e.detail.quote in (cm.kind, with_minutes cm r)
    | none ↦
        let raw = raw_text_of c.vote_row in
        (kind_of_raw raw, record r { minutes_excerpt = last_300 raw; minutes_page = none })
  ]

  unfoldable pub vote_outcome_row : Candidate → NewRow
  vote_outcome_row c =
      let ct = cite_t (quote_of c.transcript_event) in
      let row =
        base vote_outcome material (vote_title c.item_refs) c.note c.transcript_event
          c.minutes_event c.item_refs aligner in
      let (km, row') = vote_minutes c (with_transcript ct row) in
      record row' {
        citation_match = citation_match_for (ct.kind ∷ km ∷ []);
        confidence = some ctx.nine_tenths;
      }

  -- The first loop.
  unfoldable pub vote_outcome_rows : List Candidate → List NewRow
  vote_outcome_rows [] = []
  vote_outcome_rows (c ∷ cs) =
      let rest = vote_outcome_rows cs in
      if is_vote_outcome c.category then vote_outcome_row c ∷ rest else rest

  unfoldable pub dismissed_row : Candidate → Verdict → NewRow
  dismissed_row c v =
      let row =
        base c.category minor (take 200 c.note)
          (or_else (stated v.dismiss_reason) (codes "dismissed by model")) c.transcript_event
          c.minutes_event c.item_refs aligner in
      record row {
        review_state = dismissed_by_model;
        reject_reason = v.dismiss_reason;
        confidence = some (ctx.confidence_of as_given v.confidence);
      }

  -- A side is cited only where the candidate has an event on it.
  abbrev judged_transcript : Candidate → Verdict → List MatchKind × NewRow → List MatchKind × NewRow
  judged_transcript c v (ks, r) = elim c.transcript_event [
    | none ↦ (ks, r)
    | some _ ↦ let ct = cite_t v.transcript_quote in (ks ++ ct.kind ∷ [], with_transcript ct r)
  ]

  abbrev judged_minutes : Candidate → Verdict → List MatchKind × NewRow → List MatchKind × NewRow
  judged_minutes c v (ks, r) = elim c.minutes_event [
    | none ↦ (ks, r)
    | some _ ↦ let cm = cite_m v.minutes_quote in (ks ++ cm.kind ∷ [], with_minutes cm r)
  ]

  unfoldable pub real_row : Candidate → Verdict → NewRow
  real_row c v =
      let title = or_else (stated v.title) (take 200 c.note) in
      let row =
        base (model_category (or_else v.category c.category)) (or_else v.severity minor) title
          (or_else (stated v.description) c.note) c.transcript_event c.minutes_event c.item_refs
          aligner in
      let (kinds, row') = judged_minutes c v (judged_transcript c v ([], row)) in
      let m = citation_match_for kinds in
      record row' {
        citation_match = m;
        confidence = some (ctx.confidence_of (scaling_for m) v.confidence);
      }

  abbrev pub verdict_row : Option Candidate → Verdict → List NewRow
  verdict_row none v = []
  verdict_row (some c) v = (if v.is_real then real_row c v else dismissed_row c v) ∷ []

  -- The second loop.
  unfoldable pub verdict_rows : List Candidate → List Verdict → List NewRow
  verdict_rows cs [] = []
  verdict_rows cs (v ∷ vs) = verdict_row (by_id cs v.candidate_id) v ++ verdict_rows cs vs
