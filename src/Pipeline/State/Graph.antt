-- ===== src/Pipeline/State/Graph.antt =====
-- app/pipeline/state.py: `transition` and the graph of its table.
use deal_truth_api.Prelude.{
  ℕ, ◌≡◌, refl, ◌≢◌, ◌⊎◌, inl, inr, Bool, true, false, Option, none, some, arith, Bool-cases, ◌||◌,
  ◌&&◌, not, List, [], ◌∷◌,
}
use deal_truth_api.Core.Enums.{
  CallStatus, created, uploading, queued, transcribing, analyzing, validating, indexing,
  building_report, shipped, cancelled, FailureKind, same_status, is_terminal,
}
use deal_truth_api.Core.Errors.{RequestError}
use deal_truth_api.Pipeline.State.{
  CallState, is_allowed, outcome_of, moved, refused, enter, transition,
}

-- What a successful transition to `target` leaves in the call.
pub record Entered (now : ℕ) (c : CallState) (target : CallStatus) (kind : Option FailureKind)
    (d : CallState) : Type 0 where
  pub status : d.status ≡ target
  pub outcome : is_terminal target ≡ true → d.terminal_outcome ≡ outcome_of target
  pub finished : is_terminal target ≡ true → d.completed_at ≡ some now
  pub cause :
      (k : FailureKind) → is_terminal target ≡ true → kind ≡ some k → d.failure_kind ≡ some k
  pub cause_kept : kind ≡ none → d.failure_kind ≡ c.failure_kind
  pub kept : is_terminal target ≡ false → d ≡ record c { status = target }

-- The table allows the step, or the status stays and is not terminal.
pub accepts : CallStatus → CallStatus → Bool
unfolding is_allowed
accepts current target =
    is_allowed current target || (same_status current target && not (is_terminal current))

enter-Entered :
    (now : ℕ) (c : CallState) (target : CallStatus) (kind : Option FailureKind)
    → Entered now c target kind (enter now c target kind)
unfolding enter
enter-Entered now c target kind = ground arith

pub transition-moved :
    (now : ℕ) (c : CallState) (target : CallStatus) (kind : Option FailureKind)
    → accepts c.status target ≡ true
    → transition now c target kind ≡ moved (enter now c target kind)
unfolding transition accepts
transition-moved now c target kind h = ground arith

-- A cancelled call is refused by a class of its own.
pub refusal : CallStatus → RequestError
refusal cancelled = RequestError.call_cancelled
refusal _ = RequestError.conflict_error

pub transition-refused :
    (now : ℕ) (c : CallState) (target : CallStatus) (kind : Option FailureKind)
    → accepts c.status target ≡ false
    → transition now c target kind ≡ refused (refusal c.status)
unfolding transition accepts refusal
transition-refused now c target kind h = ground arith

-- A transition succeeds exactly if the table allows it, or the status stays and is not terminal.
-- Then the call has the target's status; a terminal target sets the outcome, the time and the given
-- failure kind, and any other target leaves these three as they are. Otherwise a cancelled call
-- raises `CallCancelled` and every other call `ConflictError`.
pub transition_lem :
    (now : ℕ) (c : CallState) (target : CallStatus) (kind : Option FailureKind)
    → ((accepts c.status target ≡ true)
        × ((d : CallState) × (transition now c target kind ≡ moved d)
            × Entered now c target kind d))
      ⊎ ((accepts c.status target ≡ false)
          × (transition now c target kind ≡ refused (refusal c.status)))
transition_lem now c target kind = elim (Bool-cases (accepts c.status target)) [
  | inl h ↦ inl (
    h,
    (
      enter now c target kind,
      transition-moved now c target kind h,
      enter-Entered now c target kind,
    ),
  )
  | inr h ↦ inr (h, transition-refused now c target kind h)
]

-- Attempts in a row, each from the call that the last one left; a refused one changes nothing.
pub attempt : ℕ → CallState → CallStatus × Option FailureKind → CallState
attempt now c (target, kind) = elim (transition now c target kind) [ moved d ↦ d | refused e ↦ c ]

pub attempts : ℕ → CallState → List (CallStatus × Option FailureKind) → CallState
attempts now c [] = c
attempts now c (a ∷ more) = attempts now (attempt now c a) more

attempt-cancelled :
    (now : ℕ) (c : CallState) (target : CallStatus) (kind : Option FailureKind)
    → c.status ≡ cancelled
    → attempt now c (target, kind) ≡ c
unfolding attempt transition
attempt-cancelled now c target kind h = ground arith

-- Whatever transitions are tried on a cancelled call, in whatever order, no field of it changes.
pub attempts-cancelled :
    (now : ℕ) (c : CallState) (tries : List (CallStatus × Option FailureKind))
    → c.status ≡ cancelled
    → attempts now c tries ≡ c
unfolding attempts
attempts-cancelled now c [] h = refl
attempts-cancelled now c ((target, kind) ∷ more) h =
    rw (attempt-cancelled now c target kind h) (attempts-cancelled now c more h)

-- The statuses that successful transitions lead through.
pub data Route : CallStatus → CallStatus → Type 0 where
  here : {s : CallStatus} → Route s s
  step : {s t u : CallStatus} → is_allowed s t ≡ true → Route t u → Route s u

from_analyzing : Route analyzing shipped
unfolding is_allowed
from_analyzing =
    step {t = validating} refl
      (step {t = indexing} refl (step {t = building_report} refl (step {t = shipped} refl here)))

from_queued : Route queued shipped
unfolding is_allowed
from_queued = step {t = transcribing} refl (step {t = analyzing} refl from_analyzing)

-- From every status but CANCELLED there is a way to SHIPPED through the table.
pub Route-shipped : (s : CallStatus) → s ≢ cancelled → Route s shipped
unfolding is_allowed
Route-shipped cancelled h = absurd (h refl)
Route-shipped created h = step {t = queued} refl from_queued
Route-shipped uploading h = step {t = queued} refl from_queued
Route-shipped queued h = from_queued
Route-shipped validating h =
    step {t = indexing} refl (step {t = building_report} refl (step {t = shipped} refl here))
Route-shipped indexing h = step {t = building_report} refl (step {t = shipped} refl here)
Route-shipped building_report h = step {t = shipped} refl here
Route-shipped shipped h = here
Route-shipped analyzing h = from_analyzing
Route-shipped _ h = step {t = analyzing} refl from_analyzing
