-- ===== src/Core/Enums.antt =====
-- app/core/enums.py: the enums of the pipeline, with the tests `==` and the set of the terminal
-- statuses. A status is compared by its position in the declaration.
use deal_truth_api.Prelude.{ℕ, ◌≡◌, Bool, true, false, String, ◌==◌, arith}

pub data CallStatus : Type 0 where
  created uploading queued transcribing waiting_for_recap analyzing validating indexing
        building_report shipped partial failed cancelled :
      CallStatus

pub data TerminalOutcome : Type 0 where
  shipped partial failed cancelled : TerminalOutcome

pub data FailureKind : Type 0 where
  infrastructure transcription recap ml_inference validation storage database user_input :
      FailureKind

pub data CallDirection : Type 0 where
  inbound outbound internal unknown : CallDirection

pub data SourceType : Type 0 where
  upload source_url : SourceType

pub data RecordingMode : Type 0 where
  mono stereo : RecordingMode

pub data SpeakerRole : Type 0 where
  seller customer unknown : SpeakerRole

pub data InsightType : Type 0 where
  customer_fact buying_signal objection commitment deal_risk competitor reality_check call_moment
        coaching sentiment_point qualification_signal :
      InsightType

pub data EvidenceStatus : Type 0 where
  supported absence_based unconfirmed non_factual : EvidenceStatus

pub data EventState : Type 0 where
  started succeeded failed retrying skipped : EventState

-- The values of `CallStatus`.
unfoldable pub status_value : CallStatus → String
status_value created = "CREATED"
status_value uploading = "UPLOADING"
status_value queued = "QUEUED"
status_value transcribing = "TRANSCRIBING"
status_value waiting_for_recap = "WAITING_FOR_RECAP"
status_value analyzing = "ANALYZING"
status_value validating = "VALIDATING"
status_value indexing = "INDEXING"
status_value building_report = "BUILDING_REPORT"
status_value shipped = "SHIPPED"
status_value partial = "PARTIAL"
status_value failed = "FAILED"
status_value cancelled = "CANCELLED"

-- `TERMINAL_CALL_STATUSES`
abbrev pub is_terminal : CallStatus → Bool
is_terminal shipped = true
is_terminal partial = true
is_terminal failed = true
is_terminal cancelled = true
is_terminal _ = false

abbrev status_rank : CallStatus → ℕ
status_rank created = 0
status_rank uploading = 1
status_rank queued = 2
status_rank transcribing = 3
status_rank waiting_for_recap = 4
status_rank analyzing = 5
status_rank validating = 6
status_rank indexing = 7
status_rank building_report = 8
status_rank shipped = 9
status_rank partial = 10
status_rank failed = 11
status_rank cancelled = 12

abbrev pub same_status : CallStatus → CallStatus → Bool
same_status a b = status_rank a == status_rank b

pub same_status→eq : (a b : CallStatus) → same_status a b ≡ true → a ≡ b
same_status→eq a b h = ground arith

abbrev pub same_kind : FailureKind → FailureKind → Bool
same_kind infrastructure infrastructure = true
same_kind transcription transcription = true
same_kind recap recap = true
same_kind ml_inference ml_inference = true
same_kind validation validation = true
same_kind storage storage = true
same_kind database database = true
same_kind user_input user_input = true
same_kind _ _ = false

abbrev pub same_role : SpeakerRole → SpeakerRole → Bool
same_role seller seller = true
same_role customer customer = true
same_role unknown unknown = true
same_role _ _ = false

pub same_role→eq : (a b : SpeakerRole) → same_role a b ≡ true → a ≡ b
same_role→eq a b h = ground arith

pub same_role_refl : (r : SpeakerRole) → same_role r r ≡ true
same_role_refl r = ground arith

abbrev type_rank : InsightType → ℕ
type_rank customer_fact = 0
type_rank buying_signal = 1
type_rank objection = 2
type_rank commitment = 3
type_rank deal_risk = 4
type_rank competitor = 5
type_rank reality_check = 6
type_rank call_moment = 7
type_rank coaching = 8
type_rank sentiment_point = 9
type_rank qualification_signal = 10

abbrev pub same_type : InsightType → InsightType → Bool
same_type a b = type_rank a == type_rank b

pub same_type→eq : (a b : InsightType) → same_type a b ≡ true → a ≡ b
same_type→eq a b h = ground arith
