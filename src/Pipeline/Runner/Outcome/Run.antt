-- ===== src/Pipeline/Runner/Outcome/Run.antt =====
-- app/pipeline/runner.py: the ends of a run, in its stages and in each of its handlers.
use deal_truth_api.Prelude.{
  ℕ, ◌≡◌, refl, ◌∙◌, Bool, true, false, List, [], ◌∷◌, none, some, String, arith, ◌||◌,
}
use deal_truth_api.Core.Enums.{
  CallStatus, shipped, partial, failed, cancelled, building_report, FailureKind, same_status,
  is_terminal,
}
use deal_truth_api.Core.Errors.{Exception, named, other, ErrorClass, attrs}
use deal_truth_api.Intelligence.Domain.{Segment}
use deal_truth_api.Pipeline.Session.{
  Session, Result, ok, err, Exec, continue, ◌>>=◌, pure, raise, handled, attempt, gets, commit,
  rollback, move_to, warn,
}
use deal_truth_api.Pipeline.Persist.{load_segment_views}
use deal_truth_api.Pipeline.Runner.Deps.{PipelineDeps}
use deal_truth_api.Pipeline.Runner.Stages.{current_status, current_warnings}
use deal_truth_api.Pipeline.Runner.Analysis.{outcome_for}
use deal_truth_api.Pipeline.Runner.{
  views_for, run_with, run_stages, has_transcript, reraise_if, fail_with, keep_partial, by_kind,
  on_named, on_other, dispatch, on_error, run_from, run_pipeline, keeps_transcript,
  call_is_cancelled, is_cancelled_error,
}
use deal_truth_api.Pipeline.Runner.Outcome.{
  Moving, Settled, Settles, Settles-bind, Settles-if, finish-Settles, log_event-Moving,
  logged-Settles, move_to-Settles,
}

raise-Settles : (e : Exception) (s : Session) → Settles (raise e) s
unfolding raise
raise-Settles e s status h = cc

reraise_if-Settles :
    (b : Bool) (e : Exception) (w : Session)
    → Moving failed w
    → Settles (commit >>= λ _. reraise_if b e) w
unfolding reraise_if
reraise_if-Settles false e w h = finish-Settles failed w h
reraise_if-Settles true e w h =
    Settles-bind commit (λ _. raise e) w (λ a p. raise-Settles e (commit w).1)

fail_with-Settles :
    (v : PipelineDeps) (e : Exception) (kind : FailureKind) (code message : String) (s : Session)
    → s.synced.status ≡ s.live.call.status
    → Settles (fail_with v e kind code message) s
unfolding fail_with
fail_with-Settles v e kind code message s sync =
    move_to-Settles v.now failed (some kind) _ s refl sync (λ w h.
      logged-Settles _ _ _ _ _ w (reraise_if-Settles _ e _ (log_event-Moving _ _ _ _ failed w h)))

keep_partial-Settles :
    (v : PipelineDeps) (kind : FailureKind) (code : String) (s : Session)
    → s.synced.status ≡ s.live.call.status
    → Settles (keep_partial v kind code) s
unfolding keep_partial warn
keep_partial-Settles v kind code s sync = Settles-bind (warn code) _ s (λ a p.
    move_to-Settles v.now partial (some kind) _ (warn code s).1 refl sync
      (λ w h. finish-Settles partial w h))

by_kind-Settles :
    (v : PipelineDeps) (e : Exception) (c : ErrorClass) (message : String) (transcribed : Bool)
    (s : Session)
    → s.synced.status ≡ s.live.call.status
    → Settles (by_kind v e c message transcribed) s
unfolding by_kind
by_kind-Settles v e c message transcribed s sync =
    let a = attrs c in
    Settles-if (keeps_transcript a.failure_kind transcribed) (keep_partial v a.failure_kind a.code)
      (fail_with v e a.failure_kind a.code message) s
      (λ b. keep_partial-Settles v a.failure_kind a.code s sync)
      (λ b. fail_with-Settles v e a.failure_kind a.code message s sync)

returned-Settles :
    (target status : CallStatus) (s : Session)
    → s.synced.status ≡ s.live.call.status
    → s.stored.call.status ≡ s.live.call.status
    → status ≡ s.live.call.status
    → same_status status target ≡ true
    → Settles (pure target) s
unfolding pure
returned-Settles target status s sync stored here same result e =
    let reached : s.live.call.status ≡ result = ground arith in
    record { live = reached; stored = stored ∙ reached }

-- What a handler finds: the call as it was just read.
abbrev JustRead : Session → CallStatus → Type 0
JustRead s status =
    (s.synced.status ≡ s.live.call.status)
    × (s.stored.call.status ≡ s.live.call.status)
    × (status ≡ s.live.call.status)

on_named-Settles :
    (v : PipelineDeps) (e : Exception) (c : ErrorClass) (message : String) (status : CallStatus)
    (s : Session)
    → JustRead s status
    → Settles (on_named v e c message status) s
unfolding on_named gets continue ◌>>=◌
on_named-Settles v e c message status s (sync, stored, here) =
    Settles-if (same_status status shipped) (pure shipped) _ s
      (λ b. returned-Settles shipped status s sync stored here b)
      (λ b.
        Settles-if (same_status status cancelled) (raise call_is_cancelled)
          (gets has_transcript >>= by_kind v e c message) s (λ _. raise-Settles call_is_cancelled s)
          (λ _. by_kind-Settles v e c message (has_transcript s.live) s sync))

on_other-Settles :
    (v : PipelineDeps) (e : Exception) (name : String) (status : CallStatus) (s : Session)
    → JustRead s status
    → Settles (on_other v e name status) s
unfolding on_other
on_other-Settles v e name status s (sync, stored, here) =
    Settles-if (same_status status shipped) (pure shipped) _ s
      (λ b. returned-Settles shipped status s sync stored here b)
      (λ b.
        Settles-if (same_status status partial || same_status status cancelled) (raise e) _ s
          (λ _. raise-Settles e s)
          (λ _. move_to-Settles v.now failed (some FailureKind.infrastructure) _ s refl sync (λ w h.
            logged-Settles _ _ _ _ _ w
              (Settles-bind commit (λ _. raise e) _ (λ a p. raise-Settles e _)))))

dispatch-Settles :
    (v : PipelineDeps) (e : Exception) (status : CallStatus) (s : Session)
    → JustRead s status
    → Settles (dispatch v e status) s
unfolding dispatch
dispatch-Settles v (named c message) status s h =
    on_named-Settles v (named c message) c message status s h
dispatch-Settles v (other name) status s h = on_other-Settles v (other name) name status s h

on_error-Settles : (v : PipelineDeps) (e : Exception) (s : Session) → Settles (on_error v e) s
unfolding on_error rollback current_status gets continue ◌>>=◌
on_error-Settles v e s =
    Settles-if (is_cancelled_error e) (rollback >>= λ _. raise e)
      (rollback >>= λ _. current_status >>= λ status. dispatch v e status) s
      (λ b. raise-Settles e (rollback s).1)
      (λ b. dispatch-Settles v e (rollback s).1.live.call.status (rollback s).1 (refl, refl, refl))

outcome_for-terminal : (warnings : List String) → is_terminal (outcome_for warnings) ≡ true
outcome_for-terminal [] = refl
outcome_for-terminal (w ∷ ws) = refl

-- After a commit the call is as it was read.
committed-Settles :
    (now : ℕ) (target : CallStatus) (rest : Exec CallStatus) (s : Session)
    → is_terminal target ≡ true
    → ((w : Session) → Moving target w → Settles rest w)
    → Settles (commit >>= λ _. move_to now target none >>= λ _. rest) s
unfolding commit
committed-Settles now target rest s y f =
    Settles-bind commit _ s (λ a p. move_to-Settles now target none rest (commit s).1 y refl f)

run_with-Settles :
    (v : PipelineDeps) (views : List Segment) (s : Session) → Settles (run_with v views) s
unfolding run_with
run_with-Settles v views s = Settles-bind (views_for v views) _ s (λ _ _.
    Settles-bind current_warnings _ _ (λ warnings _.
      Settles-bind (move_to v.now building_report none) _ _ (λ _ _.
        committed-Settles v.now (outcome_for warnings) _ _ (outcome_for-terminal warnings) (λ w h.
          logged-Settles _ _ _ _ _ w (
            finish-Settles (outcome_for warnings) _
              (log_event-Moving _ _ _ _ (outcome_for warnings) w h))))))

handled-Settles :
    (r : Result CallStatus) (f : Exception → Exec CallStatus) (s : Session)
    → ((status : CallStatus) → r ≡ ok status → Settled status s)
    → ((e : Exception) → Settles (f e) s)
    → Settles (handled r f) s
unfolding handled
handled-Settles (ok a) f s h hf = h
handled-Settles (err e) f s h hf = hf e

run_from-Settles :
    (v : PipelineDeps) (status : CallStatus) (s : Session)
    → JustRead s status
    → Settles (run_from v status) s
unfolding run_from attempt
run_from-Settles v status s (sync, stored, here) =
    Settles-if (same_status status cancelled) (raise call_is_cancelled) _ s
      (λ b. raise-Settles call_is_cancelled s)
      (λ b.
        Settles-if (same_status status shipped) (pure shipped) (attempt (run_stages v) (on_error v))
          s (λ c. returned-Settles shipped status s sync stored here c)
          (λ c.
            handled-Settles (run_stages v s).0 (on_error v) (run_stages v s).1
              (Settles-bind (gets load_segment_views) (run_with v) s
                (λ views p. run_with-Settles v views _))
              (λ e. on_error-Settles v e (run_stages v s).1)))

-- Where a run starts with the call as it is stored, the status that it returns, if it does not raise,
-- is the status of the call at its end, in what is committed and in what the run sees, whatever other
-- sessions make of the call before.
pub run_pipeline-Settled :
    (v : PipelineDeps) (s : Session) (status : CallStatus)
    → s.synced.status ≡ s.live.call.status
    → s.stored.call.status ≡ s.live.call.status
    → (run_pipeline v s).0 ≡ ok status
    → Settled status (run_pipeline v s).1
unfolding run_pipeline current_status gets ◌>>=◌ continue run_stages
run_pipeline-Settled v s status sync stored e =
    run_from-Settles v s.live.call.status s (sync, stored, refl) status e
