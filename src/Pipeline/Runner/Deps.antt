-- ===== src/Pipeline/Runner/Deps.antt =====
-- app/pipeline/runner.py, `PipelineDeps`: what a run gets from outside, the settings and the columns of
-- the call that it reads and never writes.
use deal_truth_api.Prelude.{ℕ, Bool, Option, List, String, Text, Dict}
use deal_truth_api.Core.Enums.{CallDirection}
use deal_truth_api.Ml.Axes.{EmotionAxes}
use deal_truth_api.Providers.Normalized.{NormalizedTranscript}
use deal_truth_api.Intelligence.Extract.Objections.{Term}
use deal_truth_api.Pipeline.Session.{Recap, Result}
use deal_truth_api.Pipeline.Persist.{Vector}

-- A service answers or raises. `get_job n` is the status that the n-th poll reads, and `rounds` the
-- number of polls that the clock lets through before the deadline; `now` is the clock's time.
pub record PipelineDeps : Type 0 where
  pub now : ℕ
  pub submit_job : Result String
  pub get_job : String → ℕ → Result Text
  pub rounds : ℕ
  pub fetch_normalized : String → Result NormalizedTranscript
  pub poll_until_ready : Result Recap
  pub classify : List Text → Result (List (Dict ℕ))
  pub emotions : List Text → Result (List EmotionAxes)
  pub embed : List Text → Result (List Vector)
  pub put : String → Result {0} Unit
  pub tracked : List Term
  pub recap_enabled : Bool
  pub confidence_threshold : ℕ
  pub seller_channel : ℕ
  pub call_direction : CallDirection
  pub customer_name : Option Text
  pub rep_name : Option Text
