-- ===== src/Pipeline/Session.antt =====
-- The database session of a pipeline run (app/pipeline/runner.py, app/pipeline/persist.py): the rows of
-- one call, a transaction on them, and what other sessions commit in between.
use deal_truth_api.Prelude.{
  ℕ, Bool, true, false, ◌==◌, if◌then◌else◌, Option, none, some, List, [], ◌∷◌, ◌++◌, String, Text,
}
use deal_truth_api.Core.Enums.{
  CallStatus, FailureKind, EventState, SpeakerRole, TerminalOutcome, same_status, same_kind,
  shipped, partial, failed, cancelled, RecordingMode,
}
use deal_truth_api.Core.Errors.{Exception, named, ErrorClass}
use deal_truth_api.Intelligence.Domain.{ValidatedInsight}
use deal_truth_api.Intelligence.Ask.{Chunk}
use deal_truth_api.Intelligence.Extract.Commitments.{RecapActionItem}
use deal_truth_api.Pipeline.State.{CallState, Transition, moved, refused, transition, Event}

-- `Speaker`
pub record SpeakerRow : Type 0 where
  pub id : ℕ
  pub provider_speaker_id : Text
  pub role : SpeakerRole
  pub display_name : Option Text
  pub confidence : ℕ
  pub channel : Option ℕ
  pub manually_overridden : Bool

-- `TranscriptSegment`
pub record SegmentRow : Type 0 where
  pub id : ℕ
  pub provider_segment_id : String
  pub speaker_id : Option ℕ
  pub start_ms : ℕ
  pub end_ms : ℕ
  pub text : Text
  pub sequence_number : ℕ

-- `NormalizedRecap`, with the fields that the run reads.
pub record Recap : Type 0 where
  pub action_items : List RecapActionItem
  pub capability_warning : Option String

-- `AnalysisRun` with the insights and the refused claims that are stored under it.
pub record AnalysisRun : Type 0 where
  pub version : ℕ
  pub insights : List ValidatedInsight
  pub refused_claims : List ValidatedInsight
  pub warnings : List String

-- The rows of one call. `stored_recap` says whether there is a `RecapRecord`; its action items are
-- not among its columns that are read back.
pub record Db : Type 0 where
  pub call : CallState
  pub pyai_job_id : Option String
  pub recording_mode : RecordingMode
  pub language : Option String
  pub duration_ms : Option ℕ
  pub speakers : List SpeakerRow
  pub segments : List SegmentRow
  pub stored_recap : Bool
  pub runs : List AnalysisRun
  pub chunks : List Chunk
  pub events : List Event

-- What `_analyze` stores in the blob store besides the transcript and the recap.
pub record Report : Type 0 where
  pub outcome : CallStatus
  pub insights : List ValidatedInsight
  pub refused_count : ℕ
  pub warnings : List String

-- `stored` is what is committed, `live` what this session sees and has written, and `synced` the
-- columns of the call as the session last read or wrote them. The factory of the sessions has
-- `expire_on_commit=False`: a commit reads nothing again, and a call that other sessions change
-- meanwhile is seen only after a rollback. Each function of `outside` is what other sessions make of
-- the call by the end of the next transaction; the other rows of the call are taken to be the run's
-- own. A UUID is the next number of `fresh`. The list `warnings` and the blob store take no part in a
-- transaction.
pub record Session : Type 0 where
  pub stored : Db
  pub synced : CallState
  pub live : Db
  pub outside : List (CallState → CallState)
  pub fresh : ℕ
  pub warnings : List String
  pub reports : List Report

pub data Result {ℓ} (A : Type ℓ) : Type ℓ where
  ok : A → Result A
  err : Exception → Result A

abbrev pub Exec : Type 0 → Type 0
Exec A = Session → Result A × Session

unfoldable pub continue : {A B : Type 0} → Result A → (A → Exec B) → Exec B
continue (ok a) f s = f a s
continue (err e) f s = (err e, s)

infixl 10 ◌>>=◌ ◌>>◌
unfoldable pub ◌>>=◌ : {A B : Type 0} → Exec A → (A → Exec B) → Exec B
unfolding continue
◌>>=◌ m f s = let (r, s') = m s in continue r f s'

abbrev pub ◌>>◌ : {A B : Type 0} → Exec A → Exec B → Exec B
m >> n = m >>= λ _. n

unfoldable pub pure : {A : Type 0} → A → Exec A
pure a s = (ok a, s)

unfoldable pub raise : {A : Type 0} → Exception → Exec A
raise e s = (err e, s)

-- What a service answers, or raises.
unfoldable pub lift : {A : Type 0} → Result A → Exec A
lift r s = (r, s)

unfoldable pub handled : {A : Type 0} → Result A → (Exception → Exec A) → Exec A
handled (ok a) f s = (ok a, s)
handled (err e) f s = f e s

-- `try: m except: f`
unfoldable pub attempt : {A : Type 0} → Exec A → (Exception → Exec A) → Exec A
unfolding handled
attempt m f s = let (r, s') = m s in handled r f s'

unfoldable pub gets : {A : Type 0} → (Db → A) → Exec A
gets f s = (ok (f s.live), s)

unfoldable pub modify : (Db → Db) → Exec Unit
modify f s = (ok tt, record s { live = f s.live })

-- What other sessions have made of the call when a transaction ends.
abbrev pub seen_outside : List (CallState → CallState) → CallState → CallState
seen_outside [] c = c
seen_outside (f ∷ more) c = f c

abbrev pub later : List (CallState → CallState) → List (CallState → CallState)
later [] = []
later (f ∷ more) = more

abbrev outcome_status : TerminalOutcome → CallStatus
outcome_status TerminalOutcome.shipped = shipped
outcome_status TerminalOutcome.partial = partial
outcome_status TerminalOutcome.failed = failed
outcome_status TerminalOutcome.cancelled = cancelled

abbrev same_outcome : Option TerminalOutcome → Option TerminalOutcome → Bool
same_outcome none none = true
same_outcome (some a) (some b) = same_status (outcome_status a) (outcome_status b)
same_outcome _ _ = false

abbrev same_cause : Option FailureKind → Option FailureKind → Bool
same_cause none none = true
same_cause (some a) (some b) = same_kind a b
same_cause _ _ = false

abbrev same_time : Option ℕ → Option ℕ → Bool
same_time none none = true
same_time (some a) (some b) = a == b
same_time _ _ = false

-- An `UPDATE` writes a column if its value is not the one that was read.
abbrev column : {A : Type 0} → Bool → A → A → A
column same mine theirs = if same then theirs else mine

unfoldable pub written : CallState → CallState → CallState → CallState
written read mine theirs = record {
  status = column (same_status mine.status read.status) mine.status theirs.status;
  terminal_outcome =
      column (same_outcome mine.terminal_outcome read.terminal_outcome) mine.terminal_outcome
        theirs.terminal_outcome;
  failure_kind =
      column (same_cause mine.failure_kind read.failure_kind) mine.failure_kind theirs.failure_kind;
  completed_at =
      column (same_time mine.completed_at read.completed_at) mine.completed_at theirs.completed_at;
}

unfoldable pub commit : Exec Unit
unfolding written
commit s = (
  ok tt,
  record s {
    stored = record s.live {
      call = written s.synced s.live.call (seen_outside s.outside s.stored.call);
    };
    synced = s.live.call;
    outside = later s.outside;
  },
)

unfoldable pub rollback : Exec Unit
rollback s = (
  ok tt,
  record s {
    stored = record s.stored { call = seen_outside s.outside s.stored.call };
    synced = seen_outside s.outside s.stored.call;
    live = record s.stored { call = seen_outside s.outside s.stored.call };
    outside = later s.outside;
  },
)

-- The message of a refusal is not modelled in full: the two sentences of a conflict are one.
unfoldable pub entered : Transition → Exec Unit
entered (moved c) s = (ok tt, record s { live = record s.live { call = c } })
entered (refused e) s = (err (named (ErrorClass.request e) "Illegal state transition"), s)

-- `transition(session, call, target, failure_kind=kind)`
unfoldable pub move_to : ℕ → CallStatus → Option FailureKind → Exec Unit
unfolding entered
move_to now target kind s = entered (transition now s.live.call target kind) s

-- `log_event`
unfoldable pub log_event : String → EventState → Option String → Option String → Exec Unit
log_event stage state code message = modify (λ d. record d {
  events =
      d.events
      ++ record { stage = stage; state = state; attempt = 1; error_code = code; message = message }
        ∷ [];
})

-- `warnings.append(...)`
unfoldable pub warn : String → Exec Unit
warn code s = (ok tt, record s { warnings = s.warnings ++ code ∷ [] })
