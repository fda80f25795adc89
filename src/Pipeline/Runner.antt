-- ===== src/Pipeline/Runner.antt =====
-- app/pipeline/runner.py: `run_pipeline` and the stages that it goes through.
pub mod Deps
pub mod Stages
pub mod Analysis
pub mod Preserves
pub mod Transcript
pub mod Blind
pub mod Outcome
use deal_truth_api.Prelude.{
  Bool, true, false, ◌||◌, Option, none, some, List, [], ◌∷◌, String, if◌then◌else◌,
}
use deal_truth_api.Core.Enums.{
  CallStatus, shipped, partial, failed, cancelled, analyzing, building_report, EventState,
  FailureKind, status_value, same_status,
}
use deal_truth_api.Core.Errors.{Exception, named, other, ErrorClass, RequestError, attrs}
use deal_truth_api.Core.Retry.{should_retry}
use deal_truth_api.Intelligence.Domain.{Segment}
use deal_truth_api.Pipeline.Session.{
  Db, Exec, Recap, ◌>>=◌, ◌>>◌, pure, raise, attempt, gets, commit, rollback, move_to, log_event,
  warn,
}
use deal_truth_api.Pipeline.Persist.{load_segment_views}
use Deps.{PipelineDeps}
use Analysis.{analyze, outcome_for}
use Stages.{ensure_queued, transcribe, recap_stage, current_status, current_warnings}

abbrev pub is_cancelled_error : Exception → Bool
is_cancelled_error (named (ErrorClass.request RequestError.call_cancelled) m) = true
is_cancelled_error _ = false

abbrev pub call_is_cancelled : Exception
call_is_cancelled = named (ErrorClass.request RequestError.call_cancelled) "Call is cancelled"

-- Before the analysis of a call that has a transcript.
unfoldable pub reopen : PipelineDeps → CallStatus → Exec Unit
reopen v status =
    if same_status status partial || same_status status failed
    then (do move_to v.now analyzing none; commit)
    else pure tt

-- The recap that is read back for a new analysis has no action items.
abbrev pub read_back : Bool → Option Recap
read_back true = some (record { action_items = []; capability_warning = none })
read_back false = none

unfoldable pub resume : PipelineDeps → List Segment → Exec (List Segment)
unfolding reopen
resume v existing = do
  has_recap ← gets (λ d. d.stored_recap)
  status ← current_status
  reopen v status
  analyze v existing (read_back has_recap)

unfoldable pub start : PipelineDeps → Exec (List Segment)
start v = do ensure_queued v; views ← transcribe v; recap ← recap_stage v; analyze v views recap

unfoldable pub views_for : PipelineDeps → List Segment → Exec (List Segment)
unfolding resume start
views_for v [] = start v
views_for v (seg ∷ segs) = resume v (seg ∷ segs)

-- The body of the `try`, for the views that are there.
unfoldable pub run_with : PipelineDeps → List Segment → Exec CallStatus
run_with v existing = do
  views_for v existing
  warnings ← current_warnings
  move_to v.now building_report none
  commit
  move_to v.now (outcome_for warnings) none
  log_event "complete" EventState.succeeded none (some (status_value (outcome_for warnings)))
  commit
  pure (outcome_for warnings)

unfoldable pub run_stages : PipelineDeps → Exec CallStatus
run_stages v = gets load_segment_views >>= run_with v

unfoldable pub has_transcript : Db → Bool
has_transcript d = elim d.segments [ [] ↦ false | r ∷ rs ↦ true ]

-- `raise` in a handler, or the value of `return CallStatus.FAILED`.
unfoldable pub reraise_if : Bool → Exception → Exec CallStatus
reraise_if true e = raise e
reraise_if false e = pure failed

unfoldable pub fail_with :
    PipelineDeps → Exception → FailureKind → String → String → Exec CallStatus
unfolding reraise_if
fail_with v e kind code message = do
  move_to v.now failed (some kind)
  log_event "pipeline" EventState.failed (some code) (some message)
  commit
  reraise_if (should_retry e) e

-- A recap or inference failure keeps the transcript: the call ends PARTIAL.
unfoldable pub keep_partial : PipelineDeps → FailureKind → String → Exec CallStatus
keep_partial v kind code = do warn code; move_to v.now partial (some kind); commit; pure partial

abbrev pub keeps_transcript : FailureKind → Bool → Bool
keeps_transcript FailureKind.recap transcribed = transcribed
keeps_transcript FailureKind.ml_inference transcribed = transcribed
keeps_transcript _ transcribed = false

unfoldable pub by_kind : PipelineDeps → Exception → ErrorClass → String → Bool → Exec CallStatus
unfolding fail_with keep_partial
by_kind v e c message transcribed =
    if keeps_transcript (attrs c).failure_kind transcribed
    then keep_partial v (attrs c).failure_kind (attrs c).code
    else fail_with v e (attrs c).failure_kind (attrs c).code message

-- `except NamedError`, when the rollback is done.
unfoldable pub on_named :
    PipelineDeps → Exception → ErrorClass → String → CallStatus → Exec CallStatus
unfolding by_kind has_transcript
on_named v e c message status =
    if same_status status shipped
    then pure shipped
    else if same_status status cancelled
    then raise call_is_cancelled
    else (do transcribed ← gets has_transcript; by_kind v e c message transcribed)

-- `except Exception`, when the rollback is done.
unfoldable pub on_other : PipelineDeps → Exception → String → CallStatus → Exec CallStatus
on_other v e type_name status =
    if same_status status shipped
    then pure shipped
    else if same_status status partial || same_status status cancelled
    then raise e
    else (do
      move_to v.now failed (some FailureKind.infrastructure)
      log_event "pipeline" EventState.failed (some "INFRASTRUCTURE") (some type_name)
      commit
      raise e)

unfoldable pub dispatch : PipelineDeps → Exception → CallStatus → Exec CallStatus
unfolding on_named on_other
dispatch v (named c message) status = on_named v (named c message) c message status
dispatch v (other type_name) status = on_other v (other type_name) type_name status

-- The `except` clauses.
unfoldable pub on_error : PipelineDeps → Exception → Exec CallStatus
unfolding dispatch
on_error v e =
    if is_cancelled_error e
    then (do rollback; raise e)
    else (do rollback; status ← current_status; dispatch v e status)

unfoldable pub run_from : PipelineDeps → CallStatus → Exec CallStatus
unfolding run_stages on_error
run_from v status =
    if same_status status cancelled
    then raise call_is_cancelled
    else if same_status status shipped
    then pure shipped
    else attempt (run_stages v) (on_error v)

-- The call is there: `LookupError` for one that is not is left out.
unfoldable pub run_pipeline : PipelineDeps → Exec CallStatus
unfolding run_from
run_pipeline v = do status ← current_status; run_from v status
