-- ===== src/Pipeline/Runner/Blind.antt =====
-- app/pipeline/runner.py and app/db/__init__.py: an action in two sessions that differ only in what
-- is stored and in what other sessions do.
pub mod Stages
use deal_truth_api.Prelude.{
  ℕ, ◌≡◌, refl, sym, subst, Bool, true, false, List, Option, String, if◌then◌else◌,
}
use deal_truth_api.Core.Enums.{CallStatus, EventState, FailureKind}
use deal_truth_api.Core.Errors.{Exception}
use deal_truth_api.Pipeline.State.{CallState, Transition, moved, refused, transition}
use deal_truth_api.Pipeline.Session.{
  Db, Session, Result, ok, err, Exec, continue, ◌>>=◌, pure, raise, lift, handled, attempt, gets,
  modify, commit, entered, move_to, log_event, warn,
}

-- The session, if other rows were stored and other sessions went on to do something else.
abbrev pub elsewhere : Session → Db → List (CallState → CallState) → Session
elsewhere s stored outside = record s { stored = stored; outside = outside }

-- The two ends agree in the result, and in all that the session has but what is stored and what other
-- sessions do.
abbrev pub Alike : {A : Type 0} → Result A × Session → Result A × Session → Type 0
Alike p q = (p.0 ≡ q.0) × (p.1 ≡ elsewhere q.1 p.1.stored p.1.outside)

pub record Blind {A : Type 0} (m : Exec A) : Type 0 where
  pub at :
      (s : Session) (stored : Db) (outside : List (CallState → CallState))
      → Alike (m (elsewhere s stored outside)) (m s)

module _ {A : Type 0} where
  pub Blind-pure : (a : A) → Blind (pure a)
  unfolding pure
  Blind-pure a = record { at = λ s x o. (refl, refl) }

  pub Blind-raise : (e : Exception) → Blind {A = A} (raise e)
  unfolding raise
  Blind-raise e = record { at = λ s x o. (refl, refl) }

  pub Blind-lift : (r : Result A) → Blind (lift r)
  unfolding lift
  Blind-lift r = record { at = λ s x o. (refl, refl) }

  pub Blind-gets : (f : Db → A) → Blind (gets f)
  unfolding gets
  Blind-gets f = record { at = λ s x o. (refl, refl) }

  pub Blind-if : (b : Bool) (m n : Exec A) → Blind m → Blind n → Blind (if b then m else n)
  Blind-if true m n bm bn = bm
  Blind-if false m n bm bn = bn

  Blind-handled :
      (r : Result A) (f : Exception → Exec A)
      → ((e : Exception) → Blind (f e))
      → Blind (handled r f)
  unfolding handled
  Blind-handled (ok a) f bf = record { at = λ s x o. (refl, refl) }
  Blind-handled (err e) f bf = record { at = λ s x o. (bf e).at s x o }

  pub Blind-attempt :
      (m : Exec A) (f : Exception → Exec A)
      → Blind m
      → ((e : Exception) → Blind (f e))
      → Blind (attempt m f)
  unfolding attempt
  Blind-attempt m f bm bf = record {
    at = λ s x o.
        let here = m s in
        let there = m (elsewhere s x o) in
        let (result, state) = bm.at s x o in
        subst (λ (r : Result A). Alike (handled r f there.1) (handled here.0 f here.1)) (sym result)
          (subst (λ (t : Session). Alike (handled here.0 f t) (handled here.0 f here.1)) (sym state)
            ((Blind-handled here.0 f bf).at here.1 there.1.stored there.1.outside));
  }

module _ {A B : Type 0} where
  Blind-continue : (r : Result A) (f : A → Exec B) → ((a : A) → Blind (f a)) → Blind (continue r f)
  unfolding continue
  Blind-continue (ok a) f bf = record { at = λ s x o. (bf a).at s x o }
  Blind-continue (err e) f bf = record { at = λ s x o. (refl, refl) }

  pub Blind-bind :
      (m : Exec A) (f : A → Exec B) → Blind m → ((a : A) → Blind (f a)) → Blind (m >>= f)
  unfolding ◌>>=◌
  Blind-bind m f bm bf = record {
    at = λ s x o.
        let here = m s in
        let there = m (elsewhere s x o) in
        let (result, state) = bm.at s x o in
        subst (λ (r : Result A). Alike (continue r f there.1) (continue here.0 f here.1))
          (sym result)
          (subst (λ (t : Session). Alike (continue here.0 f t) (continue here.0 f here.1))
            (sym state) ((Blind-continue here.0 f bf).at here.1 there.1.stored there.1.outside));
  }

pub Blind-modify : (f : Db → Db) → Blind (modify f)
unfolding modify
Blind-modify f = record { at = λ s x o. (refl, refl) }

pub Blind-commit : Blind commit
unfolding commit
Blind-commit = record { at = λ s x o. (refl, refl) }

pub Blind-warn : (code : String) → Blind (warn code)
unfolding warn
Blind-warn code = record { at = λ s x o. (refl, refl) }

Blind-entered : (t : Transition) → Blind (entered t)
unfolding entered
Blind-entered (moved c) = record { at = λ s x o. (refl, refl) }
Blind-entered (refused e) = record { at = λ s x o. (refl, refl) }

pub Blind-move_to :
    (now : ℕ) (target : CallStatus) (kind : Option FailureKind) → Blind (move_to now target kind)
unfolding move_to
Blind-move_to now target kind = record {
  at = λ s x o. (Blind-entered (transition now s.live.call target kind)).at s x o;
}

pub Blind-log_event :
    (stage : String) (state : EventState) (code message : Option String)
    → Blind (log_event stage state code message)
unfolding log_event
Blind-log_event stage state code message = Blind-modify _

pub ruleset blind_rules = (
  Blind-pure, Blind-raise, Blind-lift, Blind-gets, Blind-if, Blind-attempt, Blind-bind,
  Blind-modify, Blind-commit, Blind-warn, Blind-move_to, Blind-log_event,
)
