-- ===== src/Pipeline/Runner/Stages.antt =====
-- app/pipeline/runner.py: the stages of a run, from the queue to the stored report.
use deal_truth_api.Prelude.{
  ℕ, suc, zero, Bool, true, false, not, Option, none, some, List, [], ◌∷◌, String, Text, codes,
  lower, same_text, str_eq, any, if◌then◌else◌,
}
use deal_truth_api.Core.Enums.{
  CallStatus, created, uploading, queued, transcribing, waiting_for_recap, analyzing, failed,
  same_kind, EventState, FailureKind, RecordingMode,
}
use deal_truth_api.Core.Errors.{Exception, named, other, ErrorClass, PyaiError, RequestError, attrs}
use deal_truth_api.Intelligence.Domain.{Segment}
use deal_truth_api.Intelligence.Speakers.{resolve_speakers}
use deal_truth_api.Providers.Normalized.{NormalizedTranscript}
use deal_truth_api.Pipeline.Session.{
  Result, ok, Exec, Recap, ◌>>=◌, ◌>>◌, pure, raise, lift, attempt, gets, modify, commit, move_to,
  log_event, warn,
}
use deal_truth_api.Pipeline.Persist.{persist_transcript}
use deal_truth_api.Pipeline.Runner.Deps.{PipelineDeps}

unfoldable pub current_status : Exec CallStatus
current_status = gets (λ d. d.call.status)

unfoldable pub current_warnings : Exec (List String)
current_warnings s = (ok s.warnings, s)

-- `if test: m`
abbrev pub when : Bool → Exec Unit → Exec Unit
when true m = m
when false m = pure tt

abbrev to_queue : PipelineDeps → Exec Unit
to_queue v = move_to v.now queued none >> commit

unfoldable pub queue_from : PipelineDeps → CallStatus → Exec Unit
queue_from v analyzing = move_to v.now failed none >> to_queue v
queue_from v created = to_queue v
queue_from v uploading = to_queue v
queue_from v failed = to_queue v
queue_from v _ = pure tt

-- `_ensure_queued`
unfoldable pub ensure_queued : PipelineDeps → Exec Unit
ensure_queued v = current_status >>= queue_from v

abbrev pub finished_statuses : List String
finished_statuses =
    "completed" ∷ "complete" ∷ "succeeded" ∷ "success" ∷ "done" ∷ "failed" ∷ "cancelled"
    ∷ "canceled" ∷ "error" ∷ []

abbrev pub is_finished : Text → Bool
is_finished status = any (λ name. same_text (codes name) (lower status)) finished_statuses

abbrev pub timed_out : Exception
timed_out = named (ErrorClass.pyai PyaiError.job_timeout) "PyAI transcription job timed out"

-- `_await_transcript`: `rounds` polls are left, the next is the n-th. The waiting between two polls
-- is left out.
unfoldable pub await_transcript : PipelineDeps → String → ℕ → ℕ → Exec NormalizedTranscript
await_transcript v job n zero = raise timed_out
await_transcript v job n (suc rounds) =
    let more : Exec NormalizedTranscript = await_transcript v job (suc n) rounds in
    do
      status ← lift (v.get_job job n)
      if is_finished status then lift (v.fetch_normalized job) else more

unfoldable pub start_transcribing : PipelineDeps → CallStatus → Exec Unit
start_transcribing v transcribing = pure tt
start_transcribing v queued = do
  move_to v.now transcribing none
  log_event "transcribe" EventState.started none none
  commit
start_transcribing v _ =
    raise (named (ErrorClass.request RequestError.conflict_error) "Cannot transcribe")

-- A new job, whose id is stored at once.
unfoldable pub submit : PipelineDeps → Exec String
submit v = do
  job ← lift v.submit_job
  modify (λ d. record d { pyai_job_id = some job })
  commit
  pure job

-- The job that the call has, or a new one.
unfoldable pub job_for : PipelineDeps → Option String → Exec String
job_for v none = submit v
job_for v (some job) = if str_eq job "" then submit v else pure job

-- `RecordingMode(transcript.recording_mode)`; any other text is passed over.
abbrev pub mode_from : String → RecordingMode → RecordingMode
mode_from name old =
    if str_eq name "mono"
    then RecordingMode.mono
    else if str_eq name "stereo"
    then RecordingMode.stereo
    else old

-- `_transcribe`
unfoldable pub transcribe : PipelineDeps → Exec (List Segment)
transcribe v = do
  status ← current_status
  start_transcribing v status
  known ← gets (λ d. d.pyai_job_id)
  job ← job_for v known
  transcript ← await_transcript v job 0 v.rounds
  lift (v.put "transcription")
  modify (λ d. record d { recording_mode = mode_from transcript.recording_mode d.recording_mode })
  mode ← gets (λ d. d.recording_mode)
  views ← persist_transcript transcript (
      resolve_speakers transcript mode v.seller_channel v.call_direction v.customer_name v.rep_name)
  log_event "transcribe" EventState.succeeded none none
  commit
  pure views

-- `if recap.capability_warning: warnings.append(...)`
unfoldable pub warn_of : Option String → Exec Unit
warn_of none = pure tt
warn_of (some w) = when (not (str_eq w "")) (warn w)

unfoldable pub recap_body : PipelineDeps → Exec (Option Recap)
recap_body v = do
  recap ← lift v.poll_until_ready
  warn_of recap.capability_warning
  modify (λ d. record d { stored_recap = true })
  lift (v.put "recap")
  log_event "recap" EventState.succeeded none none
  commit
  pure (some recap)

abbrev pub recap_optional : ErrorClass → Bool
recap_optional (ErrorClass.pyai PyaiError.scope_missing) = true
recap_optional (ErrorClass.pyai PyaiError.recap_failed) = true
recap_optional (ErrorClass.pyai PyaiError.recap_pending_timeout) = true
recap_optional _ = false

-- A failure that is put down as a warning; the result goes on as `instead`.
unfoldable pub noted : {A : Type 0} → String → ErrorClass → String → A → Exec A
noted stage c message instead = do
  warn (attrs c).code
  log_event stage EventState.failed (some (attrs c).code) (some message)
  commit
  pure instead

-- `except (PyAIScopeMissing, PyAIRecapFailed, PyAIRecapPendingTimeout)`
unfoldable pub without_recap : Exception → Exec (Option Recap)
without_recap (other name) = raise (other name)
without_recap (named c message) =
    if recap_optional c then noted "recap" c message none else raise (named c message)

-- `_recap`
unfoldable pub recap_stage : PipelineDeps → Exec (Option Recap)
recap_stage v = if not v.recap_enabled then pure none else (do
  move_to v.now waiting_for_recap none
  log_event "recap" EventState.started none none
  commit
  attempt (recap_body v) without_recap)

unfoldable pub without_rows : {A : Type 0} → String → Exception → Exec (List A)
without_rows stage (other name) = raise (other name)
without_rows stage (named c message) =
    if same_kind (attrs c).failure_kind FailureKind.ml_inference
    then noted stage c message []
    else raise (named c message)

-- `_ml_or_warn`
unfoldable pub ml_or_warn : {A : Type 0} → String → Result (List A) → Exec (List A)
ml_or_warn stage answer = attempt (lift answer) (without_rows stage)
