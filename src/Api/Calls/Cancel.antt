-- ===== src/Api/Calls/Cancel.antt =====
-- app/api/v1/calls.py: `cancel_call` on every status.
use deal_truth_api.Prelude.{ℕ, ◌≡◌, refl, none, some, [], ◌∷◌, ◌++◌, String, arith}
use deal_truth_api.Core.Enums.{
  CallStatus, created, uploading, queued, transcribing, waiting_for_recap, analyzing, validating,
  indexing, building_report, shipped, partial, failed, cancelled, EventState, TerminalOutcome,
}
use deal_truth_api.Pipeline.State.{CallState, transition, enter, is_allowed}
use deal_truth_api.Pipeline.Session.{Result, ok, err}
use deal_truth_api.Api.Site.{
  Rows, Site, ◌>>=◌, continue, raise, gets, modify, entered, move_to, log_event, closed, request,
}
use deal_truth_api.Api.Calls.{conflict, cancel_at, cancel_call}

-- The rows once the call is cancelled: its status, outcome and time, and one more event.
pub cancelled_rows : ℕ → Rows → Rows
cancelled_rows now r = record r {
  db = record r.db {
    call = record r.db.call {
      status = cancelled;
      terminal_outcome = some TerminalOutcome.cancelled;
      completed_at = some now;
    };
    events =
        r.db.events
        ++ record {
          stage = "cancel";
          state = EventState.succeeded;
          attempt = 1;
          error_code = none;
          message = none;
        }
          ∷ [];
  };
}

-- What a cancellation does to a site, by the status of its call.
pub Cancellation : ℕ → CallStatus → Site → Result CallState × Site → Type 0
Cancellation now cancelled s (r, t) = (r ≡ ok s.live.db.call) × (t ≡ s)
Cancellation now building_report s (r, t) = ((m : String) × (r ≡ err (conflict m))) × (t ≡ s)
Cancellation now shipped s (r, t) = ((m : String) × (r ≡ err (conflict m))) × (t ≡ s)
Cancellation now partial s (r, t) = ((m : String) × (r ≡ err (conflict m))) × (t ≡ s)
Cancellation now failed s (r, t) = ((m : String) × (r ≡ err (conflict m))) × (t ≡ s)
Cancellation now _ s (r, t) =
    (r ≡ ok (cancelled_rows now s.live).db.call)
    × (t ≡ record s { committed = cancelled_rows now s.live; live = cancelled_rows now s.live })

module _ (now : ℕ) (s : Site) where
  abbrev At : CallStatus → Type 0
  At st =
      s.live.db.call.status ≡ st
      → s.committed ≡ s.live
      → Cancellation now st s (request (cancel_call now) s)

  cancellation : (st : CallStatus) → At st
  unfolding Cancellation request closed cancel_call cancel_at ◌>>=◌ continue gets modify move_to
      entered log_event transition enter is_allowed raise cancelled_rows
  cancellation cancelled e h = ground arith
  cancellation building_report e h = (("Illegal state transition", ground arith), ground arith)
  cancellation shipped e h = (("Call already finished", ground arith), ground arith)
  cancellation partial e h = (("Call already finished", ground arith), ground arith)
  cancellation failed e h = (("Illegal state transition", ground arith), ground arith)
  cancellation created e h = ground arith
  cancellation uploading e h = ground arith
  cancellation queued e h = ground arith
  cancellation transcribing e h = ground arith
  cancellation waiting_for_recap e h = ground arith
  cancellation analyzing e h = ground arith
  cancellation validating e h = ground arith
  cancellation indexing e h = ground arith

-- A cancellation of a call that is cancelled changes nothing and succeeds; of one that is shipped,
-- partial, failed or building its report it changes nothing and raises ConflictError; and in every other
-- status the call is cancelled, with its outcome and its time, one event is added, both are
-- committed, and nothing else changes.
pub cancel_call-Cancellation :
    (now : ℕ) (s : Site)
    → s.committed ≡ s.live
    → Cancellation now s.live.db.call.status s (request (cancel_call now) s)
cancel_call-Cancellation now s h = cancellation now s s.live.db.call.status refl h
