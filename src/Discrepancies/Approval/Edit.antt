-- ===== src/Discrepancies/Approval/Edit.antt =====
-- services/discrepancies.py: _attach_citation and edit_and_approve.
use docket_pub.Prelude.{
  ℕ, Bool, true, false, ◌||◌, Option, none, some, List, [], ◌∷◌, Text, if◌then◌else◌,
}
use docket_pub.Discrepancies.Types.{MatchKind, Discrepancy, is_missing, is_proposed}
use docket_pub.Discrepancies.Citations.{
  Spoken, TranscriptText, MinutesText, Found, slice, segment_at, page_for_offset,
  citation_match_for,
}
use docket_pub.Discrepancies.Approval.{
  Result, Updates, approve, cites_neither_side, err, given, lookup_error, minutes_excerpt_not_found,
  minutes_excerpt_required, no_transcript, no_updates, not_proposed, ok, row_of,
  transcript_excerpt_not_found, transcript_excerpt_required, ◌>>=◌,
}

-- The texts that the row can cite: the transcript of its meeting and the minutes.
pub record Sources : Type 0 where
  pub transcript : Option TranscriptText
  pub minutes : Option MinutesText

module _ (find_citation : Text → Text → Found) (sources : Sources) where
  -- A supplied excerpt wins over the stored one.
  abbrev pub chosen : Option Text → Option Text → Option Text
  chosen supplied stored = elim (given supplied) [ some s ↦ some s | none ↦ given stored ]

  abbrev start_or : Option Spoken → Option ℕ → Option ℕ
  start_or none old = old
  start_or (some s) old = some s.start_s

  abbrev verify_transcript :
      Option TranscriptText → Option Text → Option ℕ → Result (MatchKind × Text × Option ℕ)
  verify_transcript tt none old = err transcript_excerpt_required
  verify_transcript none (some q) old = err no_transcript
  verify_transcript (some tt) (some q) old =
      let cm = find_citation q tt.joined in
      if is_missing cm.kind
      then err transcript_excerpt_not_found
      else ok (cm.kind, slice tt.joined cm.start cm.end, start_or (segment_at tt cm.start) old)

  abbrev verify_minutes : Option MinutesText → Option Text → Result (MatchKind × Text × ℕ)
  verify_minutes m none = err minutes_excerpt_required
  verify_minutes none (some q) = err minutes_excerpt_not_found
  verify_minutes (some m) (some q) =
      let cm = find_citation q m.text in
      if is_missing cm.kind
      then err minutes_excerpt_not_found
      else ok (cm.kind, slice m.text cm.start cm.end, page_for_offset m.page_offsets cm.start)

  abbrev transcript_side : Discrepancy → Option Text → Result (Option (MatchKind × Text × Option ℕ))
  transcript_side d supplied = elim d.transcript_event_id [
    | none ↦ ok none
    | some _ ↦ do
      v ←
          verify_transcript sources.transcript (chosen supplied d.transcript_excerpt)
            d.transcript_start_s
      ok (some v)
  ]

  abbrev minutes_side : Discrepancy → Option Text → Result (Option (MatchKind × Text × ℕ))
  minutes_side d supplied = elim d.minutes_event_id [
    | none ↦ ok none
    | some _ ↦ do
      v ← verify_minutes sources.minutes (chosen supplied d.minutes_excerpt)
      ok (some v)
  ]

  abbrev attached :
      Option (MatchKind × Text × Option ℕ) → Option (MatchKind × Text × ℕ) → Result Updates
  attached none none = err cites_neither_side
  attached (some (k, t, s)) none = ok (record {
    admin = none;
    transcript = some (t, s);
    minutes = none;
    match_kind = some (citation_match_for (k ∷ []));
  })
  attached none (some (k, t, p)) = ok (record {
    admin = none;
    transcript = none;
    minutes = some (t, p);
    match_kind = some (citation_match_for (k ∷ []));
  })
  attached (some (k, t, s)) (some (l, m, p)) = ok (record {
    admin = none;
    transcript = some (t, s);
    minutes = some (m, p);
    match_kind = some (citation_match_for (k ∷ l ∷ []));
  })

  -- _attach_citation: both sides are verified, the transcript first.
  unfoldable pub attach_citation :
      Discrepancy → (transcript_excerpt minutes_excerpt : Option Text) → Result Updates
  attach_citation d te me = do t ← transcript_side d te; m ← minutes_side d me; attached t m

  -- `if s:` on an optional excerpt, before it is stripped
  abbrev is_nonempty : Option Text → Bool
  is_nonempty none = false
  is_nonempty (some []) = false
  is_nonempty (some (_ ∷ _)) = true

  abbrev with_admin : Text → Text → Updates → Updates
  with_admin title description u = record u {
    admin = some (given (some title), given (some description));
  }

  unfoldable pub edits :
      Discrepancy → (title description : Text) (te me : Option Text) → Result Updates
  edits d title description te me =
      let checked = attach_citation d te me in
      if is_missing d.citation_match || (is_nonempty te || is_nonempty me)
      then (do u ← checked; ok (with_admin title description u))
      else ok (with_admin title description no_updates)

  abbrev pub edit_found :
      (now k : ℕ) (actor title description : Text) (te me : Option Text)
      → List Discrepancy
      → Option Discrepancy
      → Result (List Discrepancy)
  edit_found now k actor title description te me ds none = err lookup_error
  edit_found now k actor title description te me ds (some d) =
      if is_proposed d.review_state
      then (do u ← edits d title description te me; approve now k actor none u ds)
      else err (not_proposed d.review_state)

  unfoldable pub edit_and_approve :
      (now k : ℕ) (actor title description : Text) (te me : Option Text)
      → List Discrepancy
      → Result (List Discrepancy)
  edit_and_approve now k actor title description te me ds =
      edit_found now k actor title description te me ds (row_of k ds)
