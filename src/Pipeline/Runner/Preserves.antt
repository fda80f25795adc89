-- ===== src/Pipeline/Runner/Preserves.antt =====
-- What the actions of a run leave true of its session, whether they return or raise: a rule for each
-- of the ways in which app/pipeline/runner.py puts actions together.
use deal_truth_api.Prelude.{Bool, true, false, if◌then◌else◌}
use deal_truth_api.Core.Errors.{Exception}
use deal_truth_api.Pipeline.Session.{
  Db, Session, Result, ok, err, Exec, continue, ◌>>=◌, pure, raise, lift, handled, attempt, gets,
}

module _ (P : Session → Type 0) where
  pub record Preserves {A : Type 0} (m : Exec A) : Type 0 where
    pub after : (before : Session) → P before → P (m before).1

module _ {P : Session → Type 0} {A : Type 0} where
  -- A handler is there for an exception, and not for a value.
  pub Preserves-handled :
      (result : Result A) (handler : Exception → Exec A)
      → ((e : Exception) → Preserves P (handler e))
      → Preserves P (handled result handler)
  unfolding handled
  Preserves-handled (err e) handler each = record { after = λ w p. (each e).after w p }
  Preserves-handled (ok a) handler each = record { after = λ w p. p }

  pub Preserves-attempt :
      (body : Exec A) (handler : Exception → Exec A)
      → Preserves P body
      → ((e : Exception) → Preserves P (handler e))
      → Preserves P (attempt body handler)
  unfolding attempt
  Preserves-attempt body handler first each = record {
    after = λ w p. (Preserves-handled (body w).0 handler each).after (body w).1 (first.after w p);
  }

  pub Preserves-if :
      (test : Bool) (left right : Exec A)
      → Preserves P left
      → Preserves P right
      → Preserves P (if test then left else right)
  Preserves-if true left right here there = here
  Preserves-if false left right here there = there

  pub Preserves-gets : (read : Db → A) → Preserves P (gets read)
  unfolding gets
  Preserves-gets read = record { after = λ w p. p }

  pub Preserves-raise : (e : Exception) → Preserves P {A = A} (raise e)
  unfolding raise
  Preserves-raise e = record { after = λ w p. p }

  pub Preserves-lift : (answer : Result A) → Preserves P (lift answer)
  unfolding lift
  Preserves-lift answer = record { after = λ w p. p }

  pub Preserves-pure : (value : A) → Preserves P (pure value)
  unfolding pure
  Preserves-pure value = record { after = λ w p. p }

module _ {P : Session → Type 0} {A B : Type 0} where
  Preserves-continue :
      (result : Result A) (rest : A → Exec B)
      → ((a : A) → Preserves P (rest a))
      → Preserves P (continue result rest)
  unfolding continue
  Preserves-continue (err e) rest each = record { after = λ w p. p }
  Preserves-continue (ok a) rest each = record { after = λ w p. (each a).after w p }

  pub Preserves-bind :
      (first : Exec A) (rest : A → Exec B)
      → Preserves P first
      → ((a : A) → Preserves P (rest a))
      → Preserves P (first >>= rest)
  unfolding ◌>>=◌
  Preserves-bind first rest here each = record {
    after = λ w p. (Preserves-continue (first w).0 rest each).after (first w).1 (here.after w p);
  }

pub ruleset preserves_rules = (
  Preserves-attempt, Preserves-bind, Preserves-if, Preserves-gets, Preserves-lift, Preserves-raise,
  Preserves-pure,
)
