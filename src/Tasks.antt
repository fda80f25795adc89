-- ===== src/Tasks.antt =====
-- app/tasks/pipeline_tasks.py: the task that runs the pipeline, and how it is tried again.
pub mod Attempts
use deal_truth_api.Prelude.{ℕ, ◌*◌, ◌^◌, zero, suc, min, ◌&&◌, List, [], ◌∷◌, ltb, if◌then◌else◌}
use deal_truth_api.Core.Enums.{CallStatus}
use deal_truth_api.Core.Errors.{Exception}
use deal_truth_api.Core.Retry.{should_retry}
use deal_truth_api.Pipeline.Session.{Result, ok, err}

pub record RetrySettings : Type 0 where
  pub celery_max_retries : ℕ
  pub celery_retry_backoff : ℕ
  pub celery_retry_backoff_max : ℕ

-- How one delivery of the task ends.
pub data Delivery : Type 0 where
  finished : CallStatus → Delivery
  retried : ℕ → Delivery
  raised : Exception → Delivery

-- `min(celery_retry_backoff * (2**retries), celery_retry_backoff_max)`
unfoldable pub countdown : RetrySettings → ℕ → ℕ
countdown settings retries =
    min (settings.celery_retry_backoff * 2 ^ retries) settings.celery_retry_backoff_max

-- `max_retries=5` in the decorator of the task
abbrev pub task_max_retries : ℕ
task_max_retries = 5

-- `self.retry(exc=exc, countdown=...)` of Celery: what it does with the task's `max_retries`, the retries
-- before this delivery, the error and the countdown.
abbrev pub Retry : Type 0
Retry = ℕ → ℕ → Exception → ℕ → Delivery

-- `process_call`, of what the run of the pipeline gives.
unfoldable pub process_call : Retry → RetrySettings → ℕ → Result CallStatus → Delivery
unfolding countdown
process_call retry settings retries (ok status) = finished status
process_call retry settings retries (err e) =
    if should_retry e && ltb retries settings.celery_max_retries
    then retry task_max_retries retries e (countdown settings retries)
    else raised e

-- The deliveries of one task, with the seconds that each retry waits. `run k` is what the pipeline gives
-- at the delivery with `k` retries before it. The broker delivers a task again after each retry; its fuel
-- is the number of deliveries that are looked at.
abbrev pub Trail : Type 0
Trail = List ℕ × Delivery

abbrev pub waited : ℕ → Trail → Trail
waited n (ns, d) = (n ∷ ns, d)

abbrev pub next_delivery : Delivery → Trail → Trail
next_delivery (finished status) more = ([], finished status)
next_delivery (raised e) more = ([], raised e)
next_delivery (retried n) more = waited n more

unfoldable pub deliveries : Retry → ℕ → RetrySettings → ℕ → (ℕ → Result CallStatus) → Trail
unfolding process_call
deliveries retry zero settings retries run = ([], process_call retry settings retries (run retries))
deliveries retry (suc fuel) settings retries run =
    next_delivery (process_call retry settings retries (run retries))
      (deliveries retry fuel settings (suc retries) run)
