-- ===== src/Intelligence/Domain.antt =====
-- app/intelligence/domain.py: the objects that the extractors and the evidence validator share.
-- A UUID is a number, a time is in milliseconds from the start of the call, and a score or a
-- confidence, a float between 0 and 1, is a number of ten-thousandths.
use deal_truth_api.Prelude.{ℕ, Bool, Option, List, String, Text, Dict}
use deal_truth_api.Ml.Axes.{Grouped}
use deal_truth_api.Core.Enums.{EvidenceStatus, InsightType, SpeakerRole}

-- `SegmentView`; `valence`, which nothing that is modelled reads, is left out.
pub record Segment : Type 0 where
  pub id : ℕ
  pub provider_segment_id : String
  pub speaker_id : Option ℕ
  pub speaker_role : SpeakerRole
  pub start_ms : ℕ
  pub end_ms : ℕ
  pub text : Text
  pub sequence_number : ℕ
  pub labels : Dict ℕ
  pub emotions : Dict ℕ

-- The sentences that a refusal gives, with what they quote.
pub data Reason : Type 0 where
  no_support : Reason
  segment_missing : ℕ → Reason
  wrong_speaker : SpeakerRole → SpeakerRole → Reason
  quote_absent : Reason
  already_claimed : Reason

-- The values that the program puts into a payload (`dict[str, object]`).
pub data Value : Type 0 where
  null : Value
  flag : Bool → Value
  number : ℕ → Value
  text : Text → Value
  texts : List Text → Value
  spans : List (ℕ × ℕ) → Value
  scores : Dict ℕ → Value
  flags : Dict Bool → Value
  rollup : Grouped → Value
  reason : Reason → Value

pub record CandidateInsight : Type 0 where
  pub type : InsightType
  pub title : Text
  pub summary : Text
  pub severity : Option String
  pub confidence : ℕ
  pub evidence_status : EvidenceStatus
  pub segment_ids : List ℕ
  pub payload : Dict Value
  pub required_role : Option SpeakerRole
  pub relationship : String

pub record ValidatedInsight : Type 0 where
  pub type : InsightType
  pub title : Text
  pub summary : Text
  pub severity : Option String
  pub confidence : ℕ
  pub evidence_status : EvidenceStatus
  pub segment_ids : List ℕ
  pub quotes : List Text
  pub audio_spans : List (ℕ × ℕ)
  pub payload : Dict Value
  pub relationship : String
  pub dropped : Bool
  pub drop_reason : Option Reason
  pub error_code : Option String
  pub attempted_segment_ids : List ℕ
  pub attempted_quote : Option Text
