-- ===== src/Lib.antt =====
-- Verification library for docket.pub: the scoring rules, the transcript pipeline and the review of
-- discrepancies between council minutes and the recordings of the meetings.
--
-- The program. An agenda item is extracted (Stage 1) and rewritten (Stage 2) by a model;
-- docket/ai/reconcile.py compares the two readings and docket/ai/floors.py corrects the scores. A
-- recording's transcript moves through the stages speakers, events and compare of
-- docket/ai/transcripts/pipeline.py, one claim at a time. The compare stage writes discrepancies
-- (docket/ai/transcripts/compare.py), which an admin approves, rejects, or edits and approves
-- (docket/services/discrepancies.py). All paths here are below the directory src of the repository.
--
-- Scoring. Scoring/Facts holds the values of ai/extraction_schema.py and ai/rewrite_schema.py;
-- Scoring/Patterns the SUBJECT_MATTER_PATTERNS, with the part of Python's `re` they use in Regex;
-- Scoring/Floors the trigger tables, _resolve_threshold and apply_score_floors, as functions of the
-- rows of city_score_floor_overrides; Scoring/Reconcile is reconcile_stages. Money is in cents. A
-- score or an acreage, a Python float, is a number of units, `unit` to the point, for any `unit`.
-- Which characters above ASCII count as word characters is an argument; a pattern's search needs no
-- fuel, since it is by structural recursion on the pattern and on the text.
--
-- Transcripts. Types holds the columns of the tables transcripts, transcript_segments, ai_runs and
-- the exceptions of ai/exceptions.py. Claim is CLAIM_SQL, claim_next and claim_meeting, and
-- Claim/Steps the transactions of the workers on the table as a relation, sweeps and version resets
-- included, the producer's uploads and an admin's retry not; Marks is advance and the mark_
-- functions, and retry_transcript of services/discrepancies.py; Segments is
-- assign_index_points, and Ranges reassign_segments_from_events of events.py; Stages is how
-- run_speaker_stage, run_events_stage (with extract_minutes_side) and run_compare_stage end, as a
-- function of what they read; Process is process_claim on a world of tables; Run is the loop of
-- run_transcript_pipeline with its budget, run_for_meeting, and reset_for_versions; Sweep is
-- sweep_minutes_changes. Time is in seconds. Rows that another transaction has locked are given by
-- a Boolean function, and so a skipped row is a row for which it is true. The loops run as often as
-- the code's range says, so there is no other bound.
--
-- Discrepancies. Types holds minutes_discrepancies; Citations the text helpers and cite of
-- compare.py and page_for_offset of minutes.py; Approval is approve, reject, _attach_citation and
-- edit_and_approve, as functions from the rows to new rows or an error; Recompare is match_stale,
-- reconcile and write_rows; Gate is ship_gate. The quotation search (guard.find_citation) and the
-- similarity of excerpts (difflib) are arguments; the threshold is a fraction of the argument
-- `full`. The ratio of the gate is compared without floating point, 7 total to 10 approved.
--
-- Guard. Normalize is normalize_with_map of docket/ai/transcripts/guard.py, Find find_citation and
-- window, Statute canonical_statute. What unicodedata says of a character is the argument `fold`,
-- and which characters are digits is `digit`; difflib's matching blocks and ratio, the threshold
-- and int(n * 1.15) + 4 are arguments too. The range of window starts around an anchor has at most
-- five members, so five rounds are enough.
--
-- Alignment. Types holds the events, vote rows and candidates of docket/ai/transcripts/aligner.py,
-- a set of items being a list read by membership, and the keys of the detail dict that the aligner
-- reads; Consent is effective_consent_block, Grouping group_key and the groups of align, Results
-- canonical_result, Details details_differ, Notes the texts of the candidates, Pairing pair_group,
-- Sequence sequence_candidates, Votes _pick_vote_row and vote_outcome_candidates, and Align is
-- align. Python's \w is the argument `word`. The walk back along prev visits smaller and smaller
-- indices, so as many rounds as there are pairs are enough.
--
-- Assembly. Rows and Hunted are the loops of build_rows of docket/ai/transcripts/compare.py,
-- Nearest is nearest_event, and Build puts them together. A confidence is a number of some unit;
-- how it is halved and rounded is an argument.
--
-- Speakers. Confidence is _quote_verified and apply_confidence_rules of
-- docket/ai/transcripts/speakers.py, Write is write_assignments on the rows of transcript_speakers
-- and the loop of run_speaker_stage that leads to it, for an answer that names every cluster. A
-- thousandth of a confidence is `unit` units, and rounding to thousandths is an argument. RollCall
-- is mentioned_members and find_roll_call_pairs; difflib's test on two words is an argument. The
-- other signals that the prompt is made of, and the linking of segments to speakers, are not
-- modelled.
--
-- Votes. Types holds the tables votes, agenda_items and vote_agenda_items as far as
-- docket/analysis/vote_matcher.py uses them; Cues is item_index_for_vote and compute_confidence,
-- Links _upsert_link, Words the helpers on texts, Tiers and Tiers/Keyword the four tiers; Match/Timed,
-- Match/Substantive and Match/Consent are the three passes, and Match the loop that they share;
-- Reparse is the SQL of strict_reparse_meeting and has_provisional_links, Reparse/Enumerated the
-- enumerated list of the minutes, Meeting is match_votes_for_meeting and match_all_unmatched, and Rematch
-- rematch_near_cue_links of docket/services/vote_rematch.py. A time is a number of units, `second` to
-- the second, and a confidence a number of hundredths. The
-- scores of the keyword tier are compared as fractions, without the rounding of floating point; the
-- rounded confidence it returns, the proper nouns and amounts of analysis/structured_facts.py, and
-- what Unicode says of characters are arguments. What the download of the minutes comes to is a
-- value: nothing, an exception, or the text. The ids that the enumerated list resolves to, a set in
-- the code, are a list in the order in which they were found.
--
-- Badges. Types holds agenda_item_badges, its audit and the columns of agenda_items that the commit
-- of docket/ai/pipeline.py writes; Process is compute_on_write_process_badges of
-- docket/ai/badges_process.py and the four queries that it mirrors, Policy docket/ai/badges_policy.py,
-- and Write finalize_from_rewrite, which calls Scoring/Floors and Scoring/Reconcile. A transaction
-- that is rolled back is none. The search of a pattern from the database is an argument, with none
-- for a pattern that does not compile; PostgreSQL's word characters are those of Python's \w, and a
-- confidence is a number of hundredths.
--
-- Adoption. Tokens is docket/analysis/minutes_approval.py and the tokens of the dates in
-- docket/services/minutes_adoption.py, Parse _parse_date_spans and extract_adoption_targets, where an
-- AdoptionParseError is none, and Sweep sweep_adoptions on meetings that have a date, with the
-- matching of votes that follows (Votes/Meeting). What int reads a digit as is an argument. Each scan
-- of a text counts the characters that are left of a match, so it is by recursion on the text.
--
-- Interaction. Process settles the row that Claim hands out by the functions of Marks; the marker
-- compare_skipped_reason, which Run.reset_events writes, reaches the compare stage through
-- Marks.advance and Claim.is_ready, and there decides what Recompare.make_stale takes back. In the
-- compare stage Alignment.Align.align finds the candidates, which a model judges; Assembly.Build
-- makes rows of them and Recompare.reconcile writes these. Badges.Write stores the scores that
-- Scoring.Floors corrects, with the status that Scoring.Reconcile decides. Adoption.Sweep.promote runs
-- Votes.Meeting on each meeting that a sweep flips, which confirms the links of its consent votes.
--
-- Not modelled: the calls to the language models and the text of prompts, ingestion from the
-- cities' web sites, search, the briefing and the web pages, which are I/O and formatting; and the parsers of agendas and
-- minutes, the reading of video frames, the resolution of conflicts, the batches and the worker; of the
-- badges, the nightly queries on votes and on prior contracts; of the adoption, the listing
-- adoption_lines_by_target, which only reads.
pub mod Prelude
pub mod Regex
pub mod Scoring
pub mod Transcripts
pub mod Discrepancies
pub mod Guard
pub mod Alignment
pub mod Assembly
pub mod Speakers
pub mod Votes
pub mod Badges
pub mod Adoption
