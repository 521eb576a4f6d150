-- ===== src/Speakers/RollCall.antt =====
-- ai/transcripts/speakers.py: mentioned_members and find_roll_call_pairs. `similar` says whether
-- difflib's ratio of two words is at least 0.85; times are whole numbers of a unit, and `max_gap` is
-- eight seconds.
pub mod Answers
use docket_pub.Prelude.{
  ℕ, ◌+◌, Bool, true, false, ◌&&◌, ◌||◌, not, Option, none, some, List, [], ◌∷◌, ◌++◌, Text, codes,
  leb, ltb, length, take, keep, any, has_text, same_text, if◌then◌else◌,
}
use docket_pub.Discrepancies.Citations.{strip}
use docket_pub.Guard.Normalize.{normalize}
use docket_pub.Speakers.Types.{RosterMember}

-- A speech segment.
pub record Line : Type 0 where
  pub seq : ℕ
  pub start_s : ℕ
  pub end_s : ℕ
  pub text : Text
  pub cluster_label : Option Text
  pub is_silence : Bool

abbrev is_nonblank : Text → Bool
is_nonblank t = elim (strip t) [ [] ↦ false | _ ∷ _ ↦ true ]

-- _speech
unfoldable pub speech : List Line → List Line
speech = keep (λ l. not l.is_silence && is_nonblank l.text)

abbrev is_letter : ℕ → Bool
is_letter c = leb b'a' c && leb c b'z'

abbrev begins_word : Text → Bool
begins_word [] = false
begins_word (c ∷ _) = is_letter c

abbrev put : ℕ → Bool → List Text → List Text
put c true (t ∷ ts) = (c ∷ t) ∷ ts
put c true [] = (c ∷ []) ∷ []
put c false ts = (c ∷ []) ∷ ts

-- re.findall(r"[a-z]+", s)
unfoldable pub words_of : Text → List Text
words_of [] = []
words_of (c ∷ cs) =
    let rest = words_of cs in
    elim (is_letter c) [ false ↦ rest | true ↦ put c (begins_word cs) rest ]

-- Each word with the next.
unfoldable pub neighbours : List Text → List Text
neighbours [] = []
neighbours (a ∷ []) = []
neighbours (a ∷ b ∷ ws) = (a ++ b) ∷ neighbours (b ∷ ws)

abbrev pub response_words : List Text
response_words =
    codes "here"
    ∷ codes "present"
    ∷ codes "yes"
    ∷ codes "no"
    ∷ codes "aye"
    ∷ codes "nay"
    ∷ codes "yeah"
    ∷ []

-- `a.get("cluster_label") == b.get("cluster_label")`
unfoldable pub same_label : Option Text → Option Text → Bool
same_label none none = true
same_label (some a) (some b) = same_text a b
same_label _ _ = false

abbrev pub is_nobody : List RosterMember → Bool
is_nobody [] = true
is_nobody (_ ∷ _) = false

pub record RollCallPair : Type 0 where
  pub name_seq : ℕ
  pub name_text : Text
  pub member : RosterMember
  pub response_seq : ℕ
  pub response_cluster : Option Text
  pub response_text : Text

module _ (fold : ℕ → Text) (similar : Text → Text → Bool) (max_gap : ℕ)
    (roster : List RosterMember) where
  -- _tokens
  unfoldable pub tokens : Text → List Text
  tokens t = words_of (normalize fold t)

  abbrev is_heard_in : List Text → RosterMember → Bool
  is_heard_in joined m =
      has_text m.surname joined
      || (leb 5 (length m.surname) && any (λ t. leb 5 (length t) && similar t m.surname) joined)

  unfoldable pub mentioned_members : Text → List RosterMember
  mentioned_members t = keep (is_heard_in (neighbours (tokens t) ++ tokens t)) roster

  unfoldable pub is_short_response : Text → Bool
  is_short_response t =
      let toks = tokens t in
      ltb 0 (length toks) && leb (length toks) 3 && any (λ w. has_text w response_words) toks

  -- The inner loop: the response to the name in `s`.
  unfoldable pub response_to : Line → RosterMember → List Line → List RollCallPair
  response_to s m [] = []
  response_to s m (n ∷ ns) =
      let rest = response_to s m ns in
      if ltb (s.end_s + max_gap) n.start_s
      then []
      else if same_label n.cluster_label s.cluster_label
      then if is_nobody (mentioned_members n.text) then rest else []
      else if is_short_response n.text
      then record {
        name_seq = s.seq;
        name_text = s.text;
        member = m;
        response_seq = n.seq;
        response_cluster = n.cluster_label;
        response_text = n.text;
      }
        ∷ []
      else []

  -- A name that is read alone, and who is meant.
  abbrev pub called_in : Line → List RosterMember → List Line → List RollCallPair
  called_in s (m ∷ []) ns =
      if ltb 6 (length (tokens s.text)) then [] else response_to s m (take 3 ns)
  called_in s _ ns = []

  -- The outer loop.
  unfoldable pub pairs_from : List Line → List RollCallPair
  pairs_from [] = []
  pairs_from (s ∷ ss) = called_in s (mentioned_members s.text) ss ++ pairs_from ss

  unfoldable pub find_roll_call_pairs : List Line → List RollCallPair
  find_roll_call_pairs segments = pairs_from (speech segments)
