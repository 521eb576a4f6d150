-- ===== src/Speakers/Types.antt =====
-- ai/transcripts/schemas.py: SpeakerAssignment; the table transcript_speakers, less the embedding; and
-- the roster of speakers.py. A confidence is a number of units.
use docket_pub.Prelude.{ℕ, Bool, Option, Text}

pub data Role : Type 0 where
  council mayor clerk attorney staff public unknown : Role

pub data Signal : Type 0 where
  roll_call addressed_by_chair self_identification sample_inference : Signal

-- transcript_speakers.method
pub data StoredMethod : Type 0 where
  by_roll_call by_chair llm_inference manual : StoredMethod

pub record SpeakerAssignment : Type 0 where
  pub cluster_label : Text
  pub council_member_id : Option ℕ
  pub display_name : Option Text
  pub role : Role
  pub confidence : ℕ
  pub method : Signal
  pub evidence_quote : Text
  pub evidence_quote_2 : Option Text

pub record Speaker : Type 0 where
  pub id : ℕ
  pub meeting_id : ℕ
  pub cluster_label : Text
  pub council_member_id : Option ℕ
  pub display_name : Option Text
  pub role : Option Role
  pub confidence : Option ℕ
  pub method : Option StoredMethod
  pub is_manual : Bool
  pub needs_review : Bool

pub record RosterMember : Type 0 where
  pub id : ℕ
  pub name : Text
  pub surname : Text
