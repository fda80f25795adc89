-- ===== src/Samples/Runs.antt =====
-- Runs of the small call, and the theorems on `run_pipeline` applied to them.
use deal_truth_api.Prelude.{◌≡◌, refl, ◌≢◌, true, none, some, List, [], ◌∷◌, codes, arith}
use deal_truth_api.Core.Enums.{cancelled, failed}
use deal_truth_api.Core.Errors.{ErrorClass, MlError, named, attrs}
use deal_truth_api.Core.Retry.{should_retry}
use deal_truth_api.Pipeline.State.{CallState, transition}
use deal_truth_api.Pipeline.Session.{Session, ok}
use deal_truth_api.Pipeline.Persist.{load_segment_views}
use deal_truth_api.Pipeline.Persist.{ordered_rows, insert_row}
use deal_truth_api.Pipeline.Session.{SegmentRow, err}
use deal_truth_api.Pipeline.Runner.Deps.{PipelineDeps}
use deal_truth_api.Pipeline.Runner.{
  run_pipeline, run_stages, run_from, run_with, views_for, resume, reopen, on_error, dispatch,
  on_named, by_kind, has_transcript, fail_with, reraise_if,
}
use deal_truth_api.Pipeline.Runner.Stages.{current_status, ml_or_warn, without_rows}
use deal_truth_api.Pipeline.Runner.Analysis.{analyze, rows_for}
use deal_truth_api.Pipeline.Session.{
  ◌>>=◌, continue, gets, attempt, handled, move_to, entered, commit, written, log_event, modify,
  lift, raise, rollback, pure,
}
use deal_truth_api.Pipeline.Persist.{view_of, role_by_id}
use deal_truth_api.Pipeline.State.{enter, is_allowed}
use deal_truth_api.Core.Errors.{StorageError}
use deal_truth_api.Pipeline.Runner.Outcome.{Settled}
use deal_truth_api.Pipeline.Runner.Outcome.Run.{run_pipeline-Settled}
use deal_truth_api.Pipeline.Runner.Transcript.{Transcribed, run_pipeline_transcript}
use deal_truth_api.Pipeline.Runner.Blind.{Alike, elsewhere}
use deal_truth_api.Pipeline.Runner.Blind.Stages.{run_stages-Alike}
use deal_truth_api.Core.Enums.{CallDirection}
use deal_truth_api.Samples.{items, competitors, waiting, heard, db, session}

abbrev lines : List SegmentRow
lines =
    record {
      id = 2;
      provider_segment_id = "seg_1";
      speaker_id = some 3;
      start_ms = 0;
      end_ms = 4000;
      text = codes "our budget is tight";
      sequence_number = 0;
    }
    ∷ []

-- A call that failed after its transcript was stored.
abbrev broken : Session
broken = record session {
  stored = record db { call = record waiting { status = failed }; segments = lines };
  synced = record waiting { status = failed };
  live = record db { call = record waiting { status = failed }; segments = lines };
}

-- The service for embeddings is down, every other answers.
abbrev deps : PipelineDeps
deps = record {
  now = 9;
  submit_job = ok "job";
  get_job = λ job n. ok (codes "Completed");
  rounds = 3;
  fetch_normalized = λ job. ok heard;
  poll_until_ready = ok (record { action_items = items; capability_warning = none });
  classify = λ texts. ok ((("pain point", 9000) ∷ []) ∷ []);
  emotions = λ texts. ok [];
  embed = λ texts. err (named (ErrorClass.ml MlError.service_unavailable) "down");
  put = λ key. ok tt;
  tracked = competitors;
  recap_enabled = true;
  confidence_threshold = 5000;
  seller_channel = 0;
  call_direction = CallDirection.outbound;
  customer_name = none;
  rep_name = none;
}

broken_lines : load_segment_views broken.live ≢ []
unfolding load_segment_views ordered_rows insert_row
broken_lines h = ground arith

broken-Transcribed : Transcribed broken.live broken
broken-Transcribed = record {
  live_segments = refl;
  live_speakers = refl;
  stored_segments = refl;
  stored_speakers = refl;
}

run_pipeline_transcript_example : Transcribed broken.live (run_pipeline deps broken).1
run_pipeline_transcript_example =
    run_pipeline_transcript deps broken broken_lines broken-Transcribed

-- Another session cancels the call in the first transaction.
abbrev cancel_first : List (CallState → CallState)
cancel_first = (λ c. record c { status = cancelled }) ∷ []

run_stages-Alike_example :
    Alike (run_stages deps (elsewhere broken broken.stored cancel_first)) (run_stages deps broken)
run_stages-Alike_example = run_stages-Alike deps broken broken.stored cancel_first

-- The classifier raises an error that is no failure of inference: the run ends FAILED.
abbrev strict : PipelineDeps
strict = record deps {
  classify = λ texts. err (named (ErrorClass.storage StorageError.invalid_audio) "no audio");
}

strict_fails : (run_pipeline strict broken).0 ≡ ok failed
unfolding run_pipeline run_from run_stages run_with views_for resume reopen ◌>>=◌ continue
    current_status gets attempt handled load_segment_views ordered_rows insert_row view_of
    role_by_id move_to entered transition enter is_allowed commit written analyze log_event modify
    rows_for ml_or_warn lift without_rows raise on_error rollback dispatch on_named by_kind
    has_transcript fail_with reraise_if should_retry attrs pure
strict_fails = refl

run_pipeline-Settled_example : Settled failed (run_pipeline strict broken).1
run_pipeline-Settled_example = run_pipeline-Settled strict broken failed refl refl strict_fails
