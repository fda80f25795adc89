-- ===== src/Pipeline/Runner/Outcome.antt =====
-- app/pipeline/runner.py: the status that a run returns, and the one that is stored.
pub mod Run
use deal_truth_api.Prelude.{
  ℕ, ◌≡◌, refl, sym, ◌∙◌, subst, Bool, true, false, Option, String, arith, if◌then◌else◌,
}
use deal_truth_api.Core.Enums.{CallStatus, FailureKind, EventState, same_status, is_terminal}
use deal_truth_api.Pipeline.State.{
  CallState, Transition, moved, refused, transition, enter, is_allowed,
}
use deal_truth_api.Pipeline.Session.{
  Session, Result, ok, err, Exec, continue, ◌>>=◌, pure, modify, commit, written, entered, move_to,
  log_event,
}

-- The call has the status, in what is committed and in what the run sees.
pub record Settled (status : CallStatus) (s : Session) : Type 0 where
  pub live : s.live.call.status ≡ status
  pub stored : s.stored.call.status ≡ status

-- A status that the action returns is settled.
abbrev pub Settles : Exec CallStatus → Session → Type 0
Settles m s = (status : CallStatus) → (m s).0 ≡ ok status → Settled status (m s).1

pub Settles-continue :
    {A : Type 0} (r : Result A) (f : A → Exec CallStatus) (s : Session)
    → ((a : A) → r ≡ ok a → Settles (f a) s)
    → Settles (continue r f) s
unfolding continue
Settles-continue (ok a) f s h = h a refl
Settles-continue (err e) f s h = λ status e. cc

pub Settles-bind :
    {A : Type 0} (m : Exec A) (f : A → Exec CallStatus) (s : Session)
    → ((a : A) → (m s).0 ≡ ok a → Settles (f a) (m s).1)
    → Settles (m >>= f) s
unfolding ◌>>=◌
Settles-bind m f s h = Settles-continue (m s).0 f (m s).1 h

pub Settles-if :
    (b : Bool) (m n : Exec CallStatus) (s : Session)
    → (b ≡ true → Settles m s)
    → (b ≡ false → Settles n s)
    → Settles (if b then m else n) s
Settles-if true m n s hm hn = hm refl
Settles-if false m n s hm hn = hn refl

-- A status that is not the one that was read is written over whatever is stored.
pub commit-Settled :
    (s : Session)
    → same_status s.live.call.status s.synced.status ≡ false
    → Settled s.live.call.status (commit s).1
unfolding commit written
commit-Settled s h = record { live = refl; stored = ground (arith) }

-- What is there when a transition to a terminal status has succeeded.
pub record Moving (target : CallStatus) (s : Session) : Type 0 where
  pub at_target : s.live.call.status ≡ target
  pub changed : same_status target s.synced.status ≡ false

pub moved-Moving :
    (now : ℕ) (target : CallStatus) (kind : Option FailureKind) (s : Session) (c : CallState)
    → is_terminal target ≡ true
    → s.synced.status ≡ s.live.call.status
    → transition now s.live.call target kind ≡ moved c
    → Moving target (record s { live = record s.live { call = c } })
unfolding transition enter is_allowed
moved-Moving now target kind s c t y e = record { at_target = ground arith; changed = ground arith }

pub entered-Settles :
    (now : ℕ) (target : CallStatus) (kind : Option FailureKind) (rest : Exec CallStatus)
    (s : Session) (t : Transition)
    → is_terminal target ≡ true
    → s.synced.status ≡ s.live.call.status
    → transition now s.live.call target kind ≡ t
    → ((w : Session) → Moving target w → Settles rest w)
    → Settles (continue (entered t s).0 (λ _. rest)) (entered t s).1
unfolding entered continue
entered-Settles now target kind rest s (refused e) y sync h f = λ status e. cc
entered-Settles now target kind rest s (moved c) y sync h f =
    f (record s { live = record s.live { call = c } }) (moved-Moving now target kind s c y sync h)

-- A transition to a terminal status, from a call that is as it was read.
pub move_to-Settles :
    (now : ℕ) (target : CallStatus) (kind : Option FailureKind) (rest : Exec CallStatus)
    (s : Session)
    → is_terminal target ≡ true
    → s.synced.status ≡ s.live.call.status
    → ((w : Session) → Moving target w → Settles rest w)
    → Settles (move_to now target kind >>= λ _. rest) s
unfolding move_to ◌>>=◌
move_to-Settles now target kind rest s y sync f =
    entered-Settles now target kind rest s (transition now s.live.call target kind) y sync refl f

pub log_event-Moving :
    (stage : String) (state : EventState) (code message : Option String) (target : CallStatus)
    (w : Session)
    → Moving target w
    → Moving target (log_event stage state code message w).1
unfolding log_event modify
log_event-Moving stage state code message target w h = record {
  at_target = h.at_target;
  changed = h.changed;
}

-- The end of each way to finish: the target is committed and returned.
pub finish-Settles :
    (target : CallStatus) (w : Session) → Moving target w → Settles (commit >>= λ _. pure target) w
unfolding ◌>>=◌ continue pure commit
finish-Settles target w h status e =
    let same : target ≡ status = ground arith in
    subst (λ (t : CallStatus). Settled t (commit w).1) (h.at_target ∙ same)
      (commit-Settled w (
        subst (λ (t : CallStatus). same_status t w.synced.status ≡ false) (sym h.at_target)
          h.changed))

pub logged-Settles :
    (stage : String) (state : EventState) (code message : Option String) (rest : Exec CallStatus)
    (w : Session)
    → Settles rest (log_event stage state code message w).1
    → Settles (log_event stage state code message >>= λ _. rest) w
unfolding ◌>>=◌ continue log_event modify
logged-Settles stage state code message rest w h = h
