-- ===== src/Alignment/Notes.antt =====
-- ai/transcripts/aligner.py: _vote_phrase and mismatch_note, and the notes of align and
-- vote_outcome_candidates, as texts.
use docket_pub.Prelude.{
  ℕ, Option, none, some, List, [], ◌∷◌, ◌++◌, Text, codes, take, str_number, same_text,
  if◌then◌else◌,
}
use docket_pub.Discrepancies.Types.{Category}
use docket_pub.Alignment.Types.{
  Event, EventType, adjourn, amendment, consent_amendment, executive_session_motion, item_deferred,
  item_opened, motion, procedural_ruling, public_comment, recess, reconvene, recusal, roll_call,
  second, statement, vote, Detail, VoteRow, stated, nonzero,
}
use docket_pub.Guard.Normalize.{normalize}

-- The value of event_type.
unfoldable pub type_name : EventType → Text
type_name adjourn = codes "adjourn"
type_name amendment = codes "amendment"
type_name consent_amendment = codes "consent_amendment"
type_name executive_session_motion = codes "executive_session_motion"
type_name item_deferred = codes "item_deferred"
type_name item_opened = codes "item_opened"
type_name motion = codes "motion"
type_name procedural_ruling = codes "procedural_ruling"
type_name public_comment = codes "public_comment"
type_name recess = codes "recess"
type_name reconvene = codes "reconvene"
type_name recusal = codes "recusal"
type_name roll_call = codes "roll_call"
type_name second = codes "second"
type_name statement = codes "statement"
type_name vote = codes "vote"

abbrev shown : Option ℕ → List Text
shown none = []
shown (some n) = str_number n ∷ []

abbrev joined_by : Text → List Text → Text
joined_by sep [] = []
joined_by sep (t ∷ []) = t
joined_by sep (t ∷ u ∷ ts) = t ++ (sep ++ joined_by sep (u ∷ ts))

abbrev nonempty : Text → List Text
nonempty [] = []
nonempty (c ∷ cs) = (c ∷ cs) ∷ []

abbrev result_part : Option Text → List Text
result_part r = elim (stated r) [ none ↦ [] | some s ↦ s ∷ [] ]

abbrev abstaining : Option ℕ → List Text
abstaining n = elim (nonzero n) [ none ↦ [] | some k ↦ (str_number k ++ codes " abstaining") ∷ [] ]

abbrev or_phrase : Text → Text → Text
or_phrase [] t = t
or_phrase (c ∷ cs) t = c ∷ cs

unfoldable pub vote_phrase : Detail → Text
vote_phrase d =
    or_phrase
      (joined_by (codes " ") (
        result_part d.result
        ++ (nonempty (joined_by (codes "-") (shown d.yeas ++ shown d.nays))
            ++ abstaining d.abstentions)))
      (codes "no result recorded")

abbrev str_option : Option ℕ → Text
str_option none = codes "None"
str_option (some n) = str_number n

abbrev actor_name : Event → Text
actor_name e = elim (stated e.actor_text) [
  | some s ↦ s
  | none ↦ codes "member " ++ str_option e.actor_member_id
]

abbrev vote_note : Detail → Detail → Text
vote_note t m =
    codes "vote: transcript says " ++ (vote_phrase t ++ (codes "; minutes say " ++ vote_phrase m))

abbrev speaker_note : Event → Event → Text
speaker_note t m =
    type_name t.event_type
    ++ (codes ": transcript attributes it to "
        ++ (actor_name t ++ (codes "; minutes to " ++ actor_name m)))

-- The keys that are compared, with their names.
abbrev keyed : Detail → List (Text × Option Text)
keyed d =
    (codes "statute_cite", d.statute_cite)
    ∷ (codes "stated_reason", d.stated_reason)
    ∷ (codes "action", d.action)
    ∷ (codes "to_date", d.to_date)
    ∷ (codes "kind", d.kind)
    ∷ (codes "what_changed", d.what_changed)
    ∷ (codes "ruling", d.ruling)
    ∷ (codes "as_stated", d.as_stated)
    ∷ []

abbrev category_name : Category → Text
category_name Category.vote_outcome = codes "vote_outcome"
category_name Category.omission = codes "omission"
category_name Category.addition = codes "addition"
category_name Category.wording = codes "wording"
category_name Category.sequence = codes "sequence"
category_name Category.speaker = codes "speaker"

module _ (fold : ℕ → Text) where
  abbrev key_note : Text → (key t m : Text) → Text
  key_note type key t m =
      type
      ++ (codes ": "
          ++ (key
              ++ (codes " differs; transcript: "
                  ++ (take 120 t ++ (codes "; minutes: " ++ take 120 m)))))

  -- The note on a key whose values differ.
  abbrev difference : Text → Text → Option Text → Option Text → Option Text
  difference type key (some t) (some m) =
      if same_text (normalize fold t) (normalize fold m) then none else some (key_note type key t m)
  difference type key _ _ = none

  -- The loop over the keys.
  unfoldable pub first_difference :
      Text → List (Text × Option Text) → List (Text × Option Text) → Option Text
  first_difference type ((k, t) ∷ ts) ((_, m) ∷ ms) =
      elim (difference type k (stated t) (stated m)) [
        | some n ↦ some n
        | none ↦ first_difference type ts ms
      ]
  first_difference type _ _ = none

  abbrev wording_note : Event → Event → Category → Text
  wording_note t m cat =
      elim (first_difference (type_name t.event_type) (keyed t.detail) (keyed m.detail)) [
        | some n ↦ n
        | none ↦ type_name t.event_type ++ (codes ": " ++ (category_name cat ++ codes " differs"))
      ]

  unfoldable pub mismatch_note : Event → Event → Category → Text
  mismatch_note t m Category.vote_outcome = vote_note t.detail m.detail
  mismatch_note t m Category.speaker = speaker_note t m
  mismatch_note t m Category.omission = wording_note t m Category.omission
  mismatch_note t m Category.addition = wording_note t m Category.addition
  mismatch_note t m Category.wording = wording_note t m Category.wording
  mismatch_note t m Category.sequence = wording_note t m Category.sequence

abbrev str_text : Option Text → Text
str_text none = codes "None"
str_text (some s) = s

unfoldable pub vote_row_note : Detail → VoteRow → Text
vote_row_note d v =
    codes "transcript says "
    ++ (str_text d.result
        ++ (codes " "
            ++ (str_option d.yeas
                ++ (codes "-"
                    ++ (str_option d.nays
                        ++ (codes "; minutes vote row "
                            ++ (str_number v.id
                                ++ (codes " says "
                                    ++ (str_text v.result
                                        ++ (codes " "
                                            ++ (str_option v.yeas
                                                ++ (codes "-" ++ str_option v.nays))))))))))))
