-- ===== src/Pipeline/Runner/Transcript.antt =====
-- app/pipeline/runner.py: what a run and its handlers do with a stored transcript.
use deal_truth_api.Prelude.{
  ℕ, ◌≡◌, refl, ◌∙◌, ◌≢◌, Bool, true, false, List, [], ◌∷◌, ◌++◌, Option, if_elim, String, Text,
}
use deal_truth_api.Core.Enums.{same_status, cancelled, shipped, CallStatus, EventState, FailureKind}
use deal_truth_api.Core.Errors.{Exception, named, other, ErrorClass}
use deal_truth_api.Ml.Axes.{EmotionAxes}
use deal_truth_api.Intelligence.Domain.{Segment, ValidatedInsight}
use deal_truth_api.Intelligence.Ask.{Chunk}
use deal_truth_api.Evidence.{EvidenceEvent}
use deal_truth_api.Pipeline.State.{Transition, moved, refused, transition}
use deal_truth_api.Pipeline.Session.{
  Db, Session, Result, continue, Exec, Recap, ◌>>=◌, pure, raise, attempt, gets, modify, commit,
  rollback, move_to, log_event, warn, entered,
}
use deal_truth_api.Pipeline.Persist.{
  persist_insights, persist_chunks, add_chunks, load_segment_views, Vector,
}
use deal_truth_api.Pipeline.Runner.Deps.{PipelineDeps}
use deal_truth_api.Pipeline.Runner.Stages.{
  current_status, current_warnings, noted, without_rows, ml_or_warn,
}
use deal_truth_api.Pipeline.Runner.Analysis.{
  rows_for, log_events, store_report, add_report, index, judge_views, analyze,
}
use deal_truth_api.Pipeline.Runner.Preserves.{
  Preserves, preserves_rules, Preserves-bind, Preserves-handled, Preserves-if, Preserves-raise,
}
use deal_truth_api.Pipeline.Runner.{
  reopen, resume, views_for, run_with, run_stages, reraise_if, fail_with, keep_partial, by_kind,
  on_named, on_other, dispatch, on_error, run_from, run_pipeline,
}

-- The transcript and its speakers are those of `d`, in what is committed and in what the run sees.
pub record Transcribed (d : Db) (s : Session) : Type 0 where
  pub live_segments : s.live.segments ≡ d.segments
  pub live_speakers : s.live.speakers ≡ d.speakers
  pub stored_segments : s.stored.segments ≡ d.segments
  pub stored_speakers : s.stored.speakers ≡ d.speakers

module _ {d : Db} where
  -- What the run sees may change in every other row.
  modify_kept :
      (f : Db → Db)
      → ((c : Db) → ((f c).segments ≡ c.segments) × ((f c).speakers ≡ c.speakers))
      → Preserves (Transcribed d) (modify f)
  unfolding modify
  modify_kept f h = record {
    after = λ s t.
        let (segments, speakers) = h s.live in
        record {
          live_segments = segments ∙ t.live_segments;
          live_speakers = speakers ∙ t.live_speakers;
          stored_segments = t.stored_segments;
          stored_speakers = t.stored_speakers;
        };
  }

  commit_kept : Preserves (Transcribed d) commit
  unfolding commit
  commit_kept = record {
    after = λ s t. record {
      live_segments = t.live_segments;
      live_speakers = t.live_speakers;
      stored_segments = t.live_segments;
      stored_speakers = t.live_speakers;
    };
  }

  rollback_kept : Preserves (Transcribed d) rollback
  unfolding rollback
  rollback_kept = record {
    after = λ s t. record {
      live_segments = t.stored_segments;
      live_speakers = t.stored_speakers;
      stored_segments = t.stored_segments;
      stored_speakers = t.stored_speakers;
    };
  }

  warn_kept : (code : String) → Preserves (Transcribed d) (warn code)
  unfolding warn
  warn_kept code = record {
    after = λ s t. record {
      live_segments = t.live_segments;
      live_speakers = t.live_speakers;
      stored_segments = t.stored_segments;
      stored_speakers = t.stored_speakers;
    };
  }

  current_warnings_kept : Preserves (Transcribed d) current_warnings
  unfolding current_warnings
  current_warnings_kept = record { after = λ s t. t }

  current_status_kept : Preserves (Transcribed d) current_status
  unfolding current_status
  current_status_kept = search preserves_rules

  entered_kept : (t : Transition) → Preserves (Transcribed d) (entered t)
  unfolding entered
  entered_kept (refused e) = record { after = λ s t. t }
  entered_kept (moved c) = record {
    after = λ s t. record {
      live_segments = t.live_segments;
      live_speakers = t.live_speakers;
      stored_segments = t.stored_segments;
      stored_speakers = t.stored_speakers;
    };
  }

  move_to_kept :
      (now : ℕ) (target : CallStatus) (kind : Option FailureKind)
      → Preserves (Transcribed d) (move_to now target kind)
  unfolding move_to
  move_to_kept now target kind = record {
    after = λ s h. (entered_kept (transition now s.live.call target kind)).after s h;
  }

  log_event_kept :
      (stage : String) (state : EventState) (code message : Option String)
      → Preserves (Transcribed d) (log_event stage state code message)
  unfolding log_event
  log_event_kept stage state code message = modify_kept _ (λ c. (refl, refl))

  persist_insights_kept :
      (insights : List ValidatedInsight) → Preserves (Transcribed d) (persist_insights insights)
  unfolding persist_insights modify
  persist_insights_kept insights = record {
    after = λ s t. record {
      live_segments = t.live_segments;
      live_speakers = t.live_speakers;
      stored_segments = t.stored_segments;
      stored_speakers = t.stored_speakers;
    };
  }

  ruleset kept_rules = (
    preserves_rules, commit_kept, warn_kept, current_warnings_kept, current_status_kept,
    move_to_kept, log_event_kept, persist_insights_kept,
  )

  add_chunks_kept :
      (chunks : List Chunk) (vectors : List Vector)
      → Preserves (Transcribed d) (add_chunks chunks vectors)
  unfolding add_chunks
  add_chunks_kept [] vectors = search kept_rules
  add_chunks_kept (c ∷ cs) [] = search kept_rules
  add_chunks_kept (c ∷ cs) (v ∷ vs) = Preserves-if _ _ _ (Preserves-raise _) (
      Preserves-bind _ _
        (modify_kept (λ e. record e { chunks = e.chunks ++ c ∷ [] }) (λ e. (refl, refl)))
        (λ _. add_chunks_kept cs vs))

  persist_chunks_kept :
      (chunks : List Chunk) (vectors : List Vector)
      → Preserves (Transcribed d) (persist_chunks chunks vectors)
  unfolding persist_chunks
  persist_chunks_kept chunks vectors = search (
    kept_rules,
    modify_kept (λ e. record e { chunks = [] }) (λ e. (refl, refl)),
    add_chunks_kept chunks vectors,
  )

  noted_kept :
      {A : Type 0} (stage : String) (c : ErrorClass) (message : String) (instead : A)
      → Preserves (Transcribed d) (noted stage c message instead)
  unfolding noted
  noted_kept stage c message instead = search kept_rules

  without_rows_kept :
      {A : Type 0} (stage : String) (e : Exception)
      → Preserves (Transcribed d) (without_rows {A = A} stage e)
  unfolding without_rows
  without_rows_kept stage (named c message) = search (kept_rules, noted_kept)
  without_rows_kept stage (other name) = search kept_rules

  rows_for_kept :
      {A : Type 0} (stage : String) (ask : List Text → Result (List A)) (texts : List Text)
      → Preserves (Transcribed d) (rows_for stage ask texts)
  unfolding rows_for ml_or_warn
  rows_for_kept stage ask [] = search kept_rules
  rows_for_kept stage ask (t ∷ ts) = search (kept_rules, without_rows_kept)

  log_events_kept : (events : List EvidenceEvent) → Preserves (Transcribed d) (log_events events)
  unfolding log_events
  log_events_kept [] = search kept_rules
  log_events_kept (e ∷ events) =
      Preserves-bind _ _ (log_event_kept _ _ _ _) (λ _. log_events_kept events)

  add_report_kept :
      (insights : List ValidatedInsight) (warnings : List String)
      → Preserves (Transcribed d) (add_report insights warnings)
  unfolding add_report
  add_report_kept insights warnings = record {
    after = λ s t. record {
      live_segments = t.live_segments;
      live_speakers = t.live_speakers;
      stored_segments = t.stored_segments;
      stored_speakers = t.stored_speakers;
    };
  }

  store_report_kept :
      (v : PipelineDeps) (insights : List ValidatedInsight)
      → Preserves (Transcribed d) (store_report v insights)
  unfolding store_report
  store_report_kept v insights = search (kept_rules, add_report_kept)

  index_kept : (v : PipelineDeps) (views : List Segment) → Preserves (Transcribed d) (index v views)
  unfolding index
  index_kept v views = search (kept_rules, rows_for_kept, persist_chunks_kept)

  judge_views_kept :
      (v : PipelineDeps) (views : List Segment) (axes : List (ℕ × EmotionAxes))
      (recap : Option Recap)
      → Preserves (Transcribed d) (judge_views v views axes recap)
  unfolding judge_views
  judge_views_kept v views axes recap = search (kept_rules, log_events_kept) depth 12

  analyze_kept :
      (v : PipelineDeps) (views : List Segment) (recap : Option Recap)
      → Preserves (Transcribed d) (analyze v views recap)
  unfolding analyze
  analyze_kept v views recap =
      search (kept_rules, rows_for_kept, judge_views_kept, index_kept, store_report_kept) depth 16

  resume_kept :
      (v : PipelineDeps) (views : List Segment) → Preserves (Transcribed d) (resume v views)
  unfolding resume reopen
  resume_kept v views = search (kept_rules, analyze_kept) depth 16

  run_with_kept :
      (v : PipelineDeps) (views : List Segment)
      → views ≢ []
      → Preserves (Transcribed d) (run_with v views)
  unfolding run_with views_for
  run_with_kept v [] n = absurd (n refl)
  run_with_kept v (view ∷ views) n = search (kept_rules, resume_kept) depth 20

  reraise_if_kept : (b : Bool) (e : Exception) → Preserves (Transcribed d) (reraise_if b e)
  unfolding reraise_if
  reraise_if_kept true e = search kept_rules
  reraise_if_kept false e = search kept_rules

  by_kind_kept :
      (v : PipelineDeps) (e : Exception) (c : ErrorClass) (message : String) (transcribed : Bool)
      → Preserves (Transcribed d) (by_kind v e c message transcribed)
  unfolding by_kind keep_partial fail_with
  by_kind_kept v e c message transcribed = search (kept_rules, reraise_if_kept) depth 16

  dispatch_kept :
      (v : PipelineDeps) (e : Exception) (status : CallStatus)
      → Preserves (Transcribed d) (dispatch v e status)
  unfolding dispatch on_named on_other
  dispatch_kept v (named c message) status = search (kept_rules, by_kind_kept) depth 12
  dispatch_kept v (other name) status = search kept_rules depth 16

  on_error_kept : (v : PipelineDeps) (e : Exception) → Preserves (Transcribed d) (on_error v e)
  unfolding on_error
  on_error_kept v e = search (kept_rules, rollback_kept, dispatch_kept) depth 12

  run_from_kept :
      (v : PipelineDeps) (status : CallStatus) (s : Session)
      → load_segment_views s.live ≢ []
      → Transcribed d s
      → Transcribed d (run_from v status s).1
  unfolding run_from run_stages attempt ◌>>=◌ gets continue pure raise
  run_from_kept v status s n t =
      if_elim (λ (m : Exec CallStatus). Transcribed d (m s).1) (same_status status cancelled) t
        (if_elim (λ (m : Exec CallStatus). Transcribed d (m s).1) (same_status status shipped) t
          ((Preserves-handled (run_with v (load_segment_views s.live) s).0 (on_error v)
              (on_error_kept v)).after
            (run_with v (load_segment_views s.live) s).1
            ((run_with_kept v (load_segment_views s.live) n).after s t)))

-- A run of a call that has a transcript, with at least one segment, leaves its segments and its
-- speakers as they are, in what is committed and in what the run sees, whichever service fails and
-- whichever error it ends with.
pub run_pipeline_transcript :
    (v : PipelineDeps) (s : Session)
    → load_segment_views s.live ≢ []
    → Transcribed s.live s
    → Transcribed s.live (run_pipeline v s).1
unfolding run_pipeline current_status gets ◌>>=◌ continue
run_pipeline_transcript v s n t = run_from_kept v s.live.call.status s n t
