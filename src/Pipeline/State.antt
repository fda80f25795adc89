-- ===== src/Pipeline/State.antt =====
-- app/pipeline/state.py: the table of allowed transitions, `transition` and `log_event`.
pub mod Graph
use deal_truth_api.Prelude.{
  ℕ, Bool, true, false, not, ◌&&◌, Option, none, some, String, if◌then◌else◌,
}
use deal_truth_api.Core.Enums.{
  CallStatus, created, uploading, queued, transcribing, waiting_for_recap, analyzing, validating,
  indexing, building_report, shipped, partial, failed, cancelled, TerminalOutcome, FailureKind,
  EventState, same_status, is_terminal,
}
use deal_truth_api.Core.Errors.{RequestError}

-- The columns of `Call` that the state machine reads or writes.
pub record CallState : Type 0 where
  pub status : CallStatus
  pub terminal_outcome : Option TerminalOutcome
  pub failure_kind : Option FailureKind
  pub completed_at : Option ℕ

-- `target in ALLOWED[current]`
unfoldable pub is_allowed : CallStatus → CallStatus → Bool
is_allowed created uploading = true
is_allowed created queued = true
is_allowed created cancelled = true
is_allowed created failed = true
is_allowed uploading queued = true
is_allowed uploading failed = true
is_allowed uploading cancelled = true
is_allowed queued transcribing = true
is_allowed queued cancelled = true
is_allowed queued failed = true
is_allowed transcribing waiting_for_recap = true
is_allowed transcribing analyzing = true
is_allowed transcribing failed = true
is_allowed transcribing cancelled = true
is_allowed waiting_for_recap analyzing = true
is_allowed waiting_for_recap partial = true
is_allowed waiting_for_recap failed = true
is_allowed waiting_for_recap cancelled = true
is_allowed analyzing validating = true
is_allowed analyzing failed = true
is_allowed analyzing cancelled = true
is_allowed validating indexing = true
is_allowed validating failed = true
is_allowed validating cancelled = true
is_allowed indexing building_report = true
is_allowed indexing failed = true
is_allowed indexing cancelled = true
is_allowed building_report shipped = true
is_allowed building_report partial = true
is_allowed building_report failed = true
is_allowed shipped analyzing = true
is_allowed partial analyzing = true
is_allowed partial queued = true
is_allowed failed queued = true
is_allowed failed analyzing = true
is_allowed _ _ = false

-- `TerminalOutcome(target.value)`: `none` is the `ValueError` for a status that is not terminal.
abbrev pub outcome_of : CallStatus → Option TerminalOutcome
outcome_of shipped = some TerminalOutcome.shipped
outcome_of partial = some TerminalOutcome.partial
outcome_of failed = some TerminalOutcome.failed
outcome_of cancelled = some TerminalOutcome.cancelled
outcome_of _ = none

-- What `transition` does to the call: the call as it is afterwards, or the class that it raises.
pub data Transition : Type 0 where
  moved : CallState → Transition
  refused : RequestError → Transition

-- `call.status = target`, and the fields that a terminal status sets.
unfoldable pub enter : ℕ → CallState → CallStatus → Option FailureKind → CallState
enter now c target kind =
    if is_terminal target
    then record c {
      status = target;
      terminal_outcome = outcome_of target;
      completed_at = some now;
      failure_kind = elim kind [ none ↦ c.failure_kind | some k ↦ some k ];
    }
    else record c { status = target }

-- `now` is the clock's time at the call.
unfoldable pub transition : ℕ → CallState → CallStatus → Option FailureKind → Transition
unfolding enter is_allowed
transition now c target kind =
    if is_terminal c.status && not (is_allowed c.status target)
    then (if same_status c.status cancelled
        then refused RequestError.call_cancelled
        else refused RequestError.conflict_error)
    else if not (same_status target c.status) && not (is_allowed c.status target)
    then refused RequestError.conflict_error
    else moved (enter now c target kind)

-- `ProcessingEvent`; `details` is left out.
pub record Event : Type 0 where
  pub stage : String
  pub state : EventState
  pub attempt : ℕ
  pub error_code : Option String
  pub message : Option String
