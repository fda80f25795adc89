-- ===== src/Tasks/Attempts.antt =====
-- app/tasks/pipeline_tasks.py: how often a run is tried, and how it ends.
use deal_truth_api.Prelude.{
  ℕ, ◌+◌, min, zero, suc, ◌≡◌, ◌≤◌, ◌<◌, ◌⊎◌, inl, inr, refl, subst, false, [], All, length, ltb,
  ltb→lt, Bool-cases, arith,
}
use deal_truth_api.Core.Enums.{CallStatus}
use deal_truth_api.Core.Errors.{Exception}
use deal_truth_api.Core.Retry.{should_retry}
use deal_truth_api.Pipeline.Session.{Result, ok, err}
use deal_truth_api.Tasks.{
  RetrySettings, task_max_retries, Retry, Delivery, finished, retried, raised, countdown,
  process_call, Trail, waited, next_delivery, deliveries,
}

-- The retries that a task has: as many as the settings and its decorator both allow.
abbrev pub retries_allowed : RetrySettings → ℕ
retries_allowed settings = min settings.celery_max_retries task_max_retries

-- How a task ends after some retries: with the status of its last run, or with the error of its last
-- run, which is not one that is tried again, or comes after all retries that it has.
pub Last : RetrySettings → ℕ → Result CallStatus → Delivery → Type 0
Last settings retries r (finished status) = r ≡ ok status
Last settings retries r (raised e) =
    (r ≡ err e) × ((should_retry e ≡ false) ⊎ (retries_allowed settings ≤ retries))
Last settings retries r (retried n) = Unit → ⊥

-- The deliveries from one with some retries before it: there are at most so many retries as the settings
-- allow, each after no longer wait than they allow, and the last delivery ends the task.
pub record Attempts (settings : RetrySettings) (retries : ℕ) (run : ℕ → Result CallStatus)
    (t : Trail) : Type 0 where
  pub bounded :
      (retries ≤ retries_allowed settings) → retries + length t.0 ≤ retries_allowed settings
  pub waits : All (λ n. n ≤ settings.celery_retry_backoff_max) t.0
  pub last : Last settings (retries + length t.0) (run (retries + length t.0)) t.1

countdown-max :
    (settings : RetrySettings) (retries : ℕ)
    → countdown settings retries ≤ settings.celery_retry_backoff_max
unfolding countdown
countdown-max settings retries = omega arith

ends :
    (settings : RetrySettings) (retries : ℕ) (run : ℕ → Result CallStatus) (d : Delivery)
    → Last settings retries (run retries) d
    → Attempts settings retries run ([], d)
ends settings retries run d h = record {
  bounded = λ k. omega arith;
  waits = tt;
  last = subst (λ n. Last settings n (run n) d) (omega arith) h;
}

goes_on :
    (settings : RetrySettings) (retries n : ℕ) (run : ℕ → Result CallStatus) (t : Trail)
    → retries < retries_allowed settings
    → n ≤ settings.celery_retry_backoff_max
    → Attempts settings (suc retries) run t
    → Attempts settings retries run (waited n t)
goes_on settings retries n run (ns, d) less small a = record {
  bounded = λ k. let b = a.bounded less in omega arith;
  waits = (small, a.waits);
  last = subst (λ (k : ℕ). Last settings k (run k) d) (omega arith) a.last;
}

-- What Celery documents of `retry`: a task is delivered again until it has been retried `max_retries` times,
-- and then the error that is given is raised.
pub record Retries (retry : Retry) : Type 0 where
  pub again :
      (most retries n : ℕ) (e : Exception) → retries < most → retry most retries e n ≡ retried n
  pub gives_up :
      (most retries n : ℕ) (e : Exception) → most ≤ retries → retry most retries e n ≡ raised e

module _ (retry : Retry) (celery : Retries retry) where
  next-Attempts :
      (settings : RetrySettings) (retries : ℕ) (run : ℕ → Result CallStatus) (more : Trail)
      (r : Result CallStatus)
      → run retries ≡ r
      → (retries < retries_allowed settings → Attempts settings (suc retries) run more)
      → Attempts settings retries run (next_delivery (process_call retry settings retries r) more)
  unfolding process_call
  next-Attempts settings retries run more (ok status) e h =
      ends settings retries run (finished status) (unfold Last in e)
  next-Attempts settings retries run more (err x) e h = elim (Bool-cases (should_retry x)) [
    | inr s ↦ rw s (ends settings retries run (raised x) (unfold Last in (e, inl s)))
    | inl s ↦ elim (Bool-cases (ltb retries settings.celery_max_retries)) [
      | inl b ↦ elim (Bool-cases (ltb retries task_max_retries)) [
        | inl c ↦
            let few : retries < settings.celery_max_retries = ltb→lt _ _ b in
            let fewer : retries < task_max_retries = ltb→lt _ _ c in
            let less : retries < retries_allowed settings = omega arith in
            rw (s, b, celery.again task_max_retries retries (countdown settings retries) x fewer)
              (goes_on settings retries (countdown settings retries) run more less
                (countdown-max settings retries) (h less))
        | inr c ↦
            let enough : task_max_retries ≤ retries = ground arith in
            rw
              (s, b, celery.gives_up task_max_retries retries (countdown settings retries) x enough)
              (ends settings retries run (raised x) (unfold Last in (e, inr (omega arith))))
      ]
      | inr b ↦
          rw (s, b) (ends settings retries run (raised x) (unfold Last in (e, inr (ground arith))))
    ]
  ]

  next-final :
      (settings : RetrySettings) (retries : ℕ) (run : ℕ → Result CallStatus) (r : Result CallStatus)
      → run retries ≡ r
      → retries_allowed settings ≤ retries
      → Attempts settings retries run ([], process_call retry settings retries r)
  unfolding process_call
  next-final settings retries run (ok status) e h =
      ends settings retries run (finished status) (unfold Last in e)
  next-final settings retries run (err x) e h =
      let after : Last settings retries (run retries) (raised x)
          → Attempts settings retries run ([], raised x) =
        ends settings retries run (raised x) in
      elim (Bool-cases (should_retry x)) [
        | inr s ↦ rw s (after (unfold Last in (e, inl s)))
        | inl s ↦ elim (Bool-cases (ltb retries settings.celery_max_retries)) [
          | inr b ↦ rw (s, b) (after (unfold Last in (e, inr h)))
          | inl b ↦
              let few : retries < settings.celery_max_retries = ltb→lt _ _ b in
              let enough : task_max_retries ≤ retries = omega arith in
              rw
                (
                  s,
                  b,
                  celery.gives_up task_max_retries retries (countdown settings retries) x enough,
                )
                (after (unfold Last in (e, inr h)))
        ]
      ]

  deliveries-from :
      (fuel : ℕ) (settings : RetrySettings) (retries : ℕ) (run : ℕ → Result CallStatus)
      → retries_allowed settings ≤ retries + fuel
      → Attempts settings retries run (deliveries retry fuel settings retries run)
  unfolding deliveries
  deliveries-from zero settings retries run h =
      next-final settings retries run (run retries) refl (omega arith)
  deliveries-from (suc fuel) settings retries run h =
      next-Attempts settings retries run (deliveries retry fuel settings (suc retries) run)
        (run retries) refl (λ less. deliveries-from fuel settings (suc retries) run (omega arith))

-- Where Celery's retry does what its documentation says, whatever the runs of the pipeline give, a task is
-- delivered at most once more than the settings and the task's own limit of five both allow retries, no retry
-- waits longer than the settings allow, and the task ends with the status of its last run, or with that run's
-- error, which is not to be tried again or comes after all retries.
pub deliveries-Attempts :
    (retry : Retry)
    → Retries retry
    → (settings : RetrySettings) (run : ℕ → Result CallStatus)
    → Attempts settings 0 run (deliveries retry (retries_allowed settings) settings 0 run)
deliveries-Attempts retry celery settings run =
    deliveries-from retry celery (retries_allowed settings) settings 0 run (omega arith)
