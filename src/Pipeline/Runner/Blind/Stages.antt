-- ===== src/Pipeline/Runner/Blind/Stages.antt =====
-- app/pipeline/runner.py: the stages in two sessions that differ only in what other sessions do.
use deal_truth_api.Prelude.{
  ℕ, suc, zero, refl, Bool, true, false, List, [], ◌∷◌, ◌++◌, Option, none, some, String, Text,
}
use deal_truth_api.Core.Enums.{
  CallStatus, created, uploading, queued, transcribing, analyzing, failed,
}
use deal_truth_api.Core.Errors.{Exception, named, other, ErrorClass}
use deal_truth_api.Ml.Axes.{EmotionAxes}
use deal_truth_api.Intelligence.Domain.{Segment, ValidatedInsight}
use deal_truth_api.Intelligence.Speakers.{Resolved}
use deal_truth_api.Intelligence.Ask.{Chunk}
use deal_truth_api.Evidence.{EvidenceEvent}
use deal_truth_api.Providers.Normalized.{NormalizedTranscript}
use deal_truth_api.Pipeline.State.{CallState}
use deal_truth_api.Pipeline.Session.{Db, Session, Result, Exec, Recap, modify}
use deal_truth_api.Pipeline.Persist.{
  persist_transcript, persist_insights, persist_chunks, add_chunks, Vector,
}
use deal_truth_api.Pipeline.Runner.Deps.{PipelineDeps}
use deal_truth_api.Pipeline.Runner.Stages.{
  current_status, current_warnings, queue_from, ensure_queued, await_transcript, start_transcribing,
  submit, when, job_for, transcribe, warn_of, recap_body, noted, without_recap, recap_stage,
  without_rows, ml_or_warn,
}
use deal_truth_api.Pipeline.Runner.Analysis.{
  rows_for, log_events, add_report, store_report, index, judge_views, analyze,
}
use deal_truth_api.Pipeline.Runner.{reopen, resume, start, views_for, run_with, run_stages}
use deal_truth_api.Pipeline.Runner.Blind.{
  Blind, Alike, elsewhere, blind_rules, Blind-bind, Blind-if, Blind-raise, Blind-modify, Blind-lift,
  Blind-warn, Blind-log_event,
}

current_warnings-Blind : Blind current_warnings
unfolding current_warnings
current_warnings-Blind = record { at = λ s x o. (refl, refl) }

current_status-Blind : Blind current_status
unfolding current_status
current_status-Blind = search blind_rules

persist_transcript-Blind :
    (t : NormalizedTranscript) (rs : List Resolved) → Blind (persist_transcript t rs)
unfolding persist_transcript
persist_transcript-Blind t rs = record { at = λ s x o. (refl, refl) }

persist_insights-Blind : (insights : List ValidatedInsight) → Blind (persist_insights insights)
unfolding persist_insights modify
persist_insights-Blind insights = record { at = λ s x o. (refl, refl) }

ruleset stage_rules = (
  blind_rules, current_warnings-Blind, current_status-Blind, persist_transcript-Blind,
  persist_insights-Blind,
)

add_chunks-Blind : (chunks : List Chunk) (vectors : List Vector) → Blind (add_chunks chunks vectors)
unfolding add_chunks
add_chunks-Blind [] vectors = search blind_rules
add_chunks-Blind (c ∷ cs) [] = search blind_rules
add_chunks-Blind (c ∷ cs) (v ∷ vs) = Blind-if _ _ _ (Blind-raise _) (
    Blind-bind _ _ (Blind-modify (λ e. record e { chunks = e.chunks ++ c ∷ [] }))
      (λ _. add_chunks-Blind cs vs))

persist_chunks-Blind :
    (chunks : List Chunk) (vectors : List Vector) → Blind (persist_chunks chunks vectors)
unfolding persist_chunks
persist_chunks-Blind chunks vectors = search (blind_rules, add_chunks-Blind)

queue_from-Blind : (v : PipelineDeps) (status : CallStatus) → Blind (queue_from v status)
unfolding queue_from
queue_from-Blind v analyzing = search blind_rules
queue_from-Blind v created = search blind_rules
queue_from-Blind v uploading = search blind_rules
queue_from-Blind v failed = search blind_rules
queue_from-Blind v _ = search blind_rules

ensure_queued-Blind : (v : PipelineDeps) → Blind (ensure_queued v)
unfolding ensure_queued
ensure_queued-Blind v = search (stage_rules, queue_from-Blind)

await_transcript-Blind :
    (v : PipelineDeps) (job : String) (n rounds : ℕ) → Blind (await_transcript v job n rounds)
unfolding await_transcript
await_transcript-Blind v job n zero = search blind_rules
await_transcript-Blind v job n (suc rounds) =
    Blind-bind _ _ (Blind-lift _)
      (λ status. Blind-if _ _ _ (Blind-lift _) (await_transcript-Blind v job (suc n) rounds))

start_transcribing-Blind :
    (v : PipelineDeps) (status : CallStatus) → Blind (start_transcribing v status)
unfolding start_transcribing
start_transcribing-Blind v transcribing = search blind_rules
start_transcribing-Blind v queued = search blind_rules depth 12
start_transcribing-Blind v _ = search blind_rules

submit-Blind : (v : PipelineDeps) → Blind (submit v)
unfolding submit
submit-Blind v = search blind_rules depth 12

job_for-Blind : (v : PipelineDeps) (known : Option String) → Blind (job_for v known)
unfolding job_for
job_for-Blind v none = search (blind_rules, submit-Blind)
job_for-Blind v (some job) = search (blind_rules, submit-Blind)

transcribe-Blind : (v : PipelineDeps) → Blind (transcribe v)
unfolding transcribe
transcribe-Blind v =
    search (stage_rules, start_transcribing-Blind, job_for-Blind, await_transcript-Blind) depth 24

noted-Blind :
    {A : Type 0} (stage : String) (c : ErrorClass) (message : String) (instead : A)
    → Blind (noted stage c message instead)
unfolding noted
noted-Blind stage c message instead = search blind_rules depth 12

when-Blind : (b : Bool) (m : Exec Unit) → Blind m → Blind (when b m)
when-Blind true m h = h
when-Blind false m h = search blind_rules

warn_of-Blind : (w : Option String) → Blind (warn_of w)
unfolding warn_of
warn_of-Blind none = search blind_rules
warn_of-Blind (some w) = when-Blind _ _ (Blind-warn w)

recap_body-Blind : (v : PipelineDeps) → Blind (recap_body v)
unfolding recap_body
recap_body-Blind v = search (blind_rules, warn_of-Blind) depth 20

without_recap-Blind : (e : Exception) → Blind (without_recap e)
unfolding without_recap
without_recap-Blind (named c message) = search (blind_rules, noted-Blind)
without_recap-Blind (other name) = search blind_rules

recap_stage-Blind : (v : PipelineDeps) → Blind (recap_stage v)
unfolding recap_stage
recap_stage-Blind v = search (blind_rules, recap_body-Blind, without_recap-Blind) depth 16

without_rows-Blind :
    {A : Type 0} (stage : String) (e : Exception) → Blind (without_rows {A = A} stage e)
unfolding without_rows
without_rows-Blind stage (named c message) = search (blind_rules, noted-Blind)
without_rows-Blind stage (other name) = search blind_rules

rows_for-Blind :
    {A : Type 0} (stage : String) (ask : List Text → Result (List A)) (texts : List Text)
    → Blind (rows_for stage ask texts)
unfolding rows_for ml_or_warn
rows_for-Blind stage ask [] = search blind_rules
rows_for-Blind stage ask (t ∷ ts) = search (blind_rules, without_rows-Blind)

log_events-Blind : (events : List EvidenceEvent) → Blind (log_events events)
unfolding log_events
log_events-Blind [] = search blind_rules
log_events-Blind (e ∷ events) =
    Blind-bind _ _ (Blind-log_event _ _ _ _) (λ _. log_events-Blind events)

add_report-Blind :
    (insights : List ValidatedInsight) (warnings : List String)
    → Blind (add_report insights warnings)
unfolding add_report
add_report-Blind insights warnings = record { at = λ s x o. (refl, refl) }

store_report-Blind :
    (v : PipelineDeps) (insights : List ValidatedInsight) → Blind (store_report v insights)
unfolding store_report
store_report-Blind v insights = search (stage_rules, add_report-Blind) depth 12

index-Blind : (v : PipelineDeps) (views : List Segment) → Blind (index v views)
unfolding index
index-Blind v views = search (stage_rules, rows_for-Blind, persist_chunks-Blind)

judge_views-Blind :
    (v : PipelineDeps) (views : List Segment) (axes : List (ℕ × EmotionAxes)) (recap : Option Recap)
    → Blind (judge_views v views axes recap)
unfolding judge_views
judge_views-Blind v views axes recap = search (stage_rules, log_events-Blind) depth 12

analyze-Blind :
    (v : PipelineDeps) (views : List Segment) (recap : Option Recap) → Blind (analyze v views recap)
unfolding analyze
analyze-Blind v views recap =
    search (stage_rules, rows_for-Blind, judge_views-Blind, index-Blind, store_report-Blind) depth
      24

views_for-Blind : (v : PipelineDeps) (views : List Segment) → Blind (views_for v views)
unfolding views_for start resume reopen
views_for-Blind v [] =
    search (stage_rules, ensure_queued-Blind, transcribe-Blind, recap_stage-Blind, analyze-Blind)
      depth 16
views_for-Blind v (view ∷ views) = search (stage_rules, analyze-Blind) depth 16

run_stages-Blind : (v : PipelineDeps) → Blind (run_stages v)
unfolding run_stages run_with
run_stages-Blind v = search (stage_rules, views_for-Blind) depth 24

-- The stages of a run, from the first to the end of the run or to the first error that they raise,
-- give the same result, and leave the run with the same view of the call and the same warnings and
-- reports, whatever is stored beforehand and whatever other sessions make of the call meanwhile: a
-- cancellation from outside is not noticed.
pub run_stages-Alike :
    (v : PipelineDeps) (s : Session) (stored : Db) (outside : List (CallState → CallState))
    → Alike (run_stages v (elsewhere s stored outside)) (run_stages v s)
run_stages-Alike v s stored outside = (run_stages-Blind v).at s stored outside
