-- ===== src/Api/Calls/Reanalyze.antt =====
-- app/api/v1/calls.py: `process_call` and `reanalyze_call` on every status.
use deal_truth_api.Prelude.{ℕ, ◌≡◌, refl, ap, Bool, true, false, none, [], ◌∷◌, ◌++◌, String, arith}
use deal_truth_api.Core.Enums.{
  CallStatus, created, uploading, queued, transcribing, waiting_for_recap, analyzing, validating,
  indexing, building_report, shipped, partial, failed, cancelled, EventState, same_status,
}
use deal_truth_api.Core.Errors.{named, ErrorClass, StorageError}
use deal_truth_api.Pipeline.State.{CallState, transition, enter, is_allowed}
use deal_truth_api.Pipeline.Session.{Result, ok, err}
use deal_truth_api.Api.Site.{
  Rows, Site, ◌>>=◌, continue, pure, raise, gets, modify, entered, move_to, log_event, closed,
  request, commit, enqueue_process,
}
use deal_truth_api.Api.Calls.{
  conflict, check_process, no_audio, when, process_call, is_in_flight, is_done, no_segments,
  reanalyze_at, reanalyze_call,
}

-- The rows with another status.
pub with_status : CallStatus → Rows → Rows
with_status target r = record r { db = record r.db { call = record r.db.call { status = target } } }

-- The request has put the call into a status, committed that, and only then queued a task.
pub Queued : CallStatus → Site → Result CallState × Site → Type 0
Queued target s (r, t) =
    (r ≡ ok (with_status target s.live).db.call)
    × (t ≡ record s {
      committed = with_status target s.live;
      live = with_status target s.live;
      queue = s.queue ++ with_status target s.live ∷ [];
    })

-- The request has changed nothing and raised `ConflictError`.
pub Refused : Site → Result CallState × Site → Type 0
Refused s (r, t) = ((m : String) × (r ≡ err (conflict m))) × (t ≡ s)

-- What a reanalysis does, by the status of the call and whether it has a transcript.
pub Reanalysis : CallStatus → Bool → Site → Result CallState × Site → Type 0
Reanalysis queued absent s o = Queued queued s o
Reanalysis transcribing absent s o = Queued transcribing s o
Reanalysis waiting_for_recap absent s o = Queued waiting_for_recap s o
Reanalysis analyzing absent s o = Queued analyzing s o
Reanalysis shipped absent s o = Queued analyzing s o
Reanalysis partial absent s o = Queued analyzing s o
Reanalysis failed true s o = Queued queued s o
Reanalysis failed false s o = Queued analyzing s o
Reanalysis _ absent s o = Refused s o

module _ (now : ℕ) (s : Site) where
  abbrev At : CallStatus → Bool → Type 0
  At st absent =
      s.live.db.call.status ≡ st
      → no_segments s.live.db.segments ≡ absent
      → s.committed ≡ s.live
      → Reanalysis st absent s (request (reanalyze_call now) s)

  reanalysis : (st : CallStatus) (absent : Bool) → At st absent
  unfolding Reanalysis Refused Queued with_status request closed reanalyze_call reanalyze_at
      is_in_flight is_done ◌>>=◌ continue gets move_to entered transition enter is_allowed raise
      commit enqueue_process
  reanalysis queued absent e a h = ground arith
  reanalysis transcribing absent e a h = ground arith
  reanalysis waiting_for_recap absent e a h = ground arith
  reanalysis analyzing absent e a h = ground arith
  reanalysis shipped absent e a h = ground arith
  reanalysis partial absent e a h = ground arith
  reanalysis failed true e a h = ground arith
  reanalysis failed false e a h = ground arith
  reanalysis created absent e a h = (("Call is not ready to reanalyze", ground arith), ground arith)
  reanalysis uploading absent e a h =
      (("Call is not ready to reanalyze", ground arith), ground arith)
  reanalysis validating absent e a h =
      (("Call is not ready to reanalyze", ground arith), ground arith)
  reanalysis indexing absent e a h =
      (("Call is not ready to reanalyze", ground arith), ground arith)
  reanalysis building_report absent e a h =
      (("Call is not ready to reanalyze", ground arith), ground arith)
  reanalysis cancelled absent e a h =
      (("Call is not ready to reanalyze", ground arith), ground arith)

-- A reanalysis of a call whose run is before its validation queues it again as it is; of a shipped or
-- partial call, or a failed one with a transcript, it puts the call back to ANALYZING, and of a failed
-- one without a transcript to QUEUED, commits that and then queues it; of any other call it changes nothing
-- and raises ConflictError. The outcome and the time of an earlier run stay in the call.
pub reanalyze_call-Reanalysis :
    (now : ℕ) (s : Site)
    → s.committed ≡ s.live
    → Reanalysis s.live.db.call.status
        (no_segments s.live.db.segments)
        s
        (request (reanalyze_call now) s)
reanalyze_call-Reanalysis now s h =
    reanalysis now s s.live.db.call.status (no_segments s.live.db.segments) refl refl h

-- The rows with one more event that says that the call is queued.
pub noted_queued : Rows → Rows
noted_queued r = record r {
  db = record r.db {
    events =
        r.db.events
        ++ record {
          stage = "queued";
          state = EventState.succeeded;
          attempt = 1;
          error_code = none;
          message = none;
        }
          ∷ [];
  };
}

-- The request has left these rows, committed them, and only then queued a task.
pub Started : Rows → Site → Result CallState × Site → Type 0
Started rows s (r, t) =
    (r ≡ ok rows.db.call)
    × (t ≡ record s { committed = rows; live = rows; queue = s.queue ++ rows ∷ [] })

-- The request has changed nothing and raised `InvalidAudio`.
pub Silent : Site → Result CallState × Site → Type 0
Silent s (r, t) =
    (r
      ≡ err (
          named (ErrorClass.storage StorageError.invalid_audio)
            "Upload audio or provide a source URL before processing"))
    × (t ≡ s)

-- What a request to process does, by the status of the call and whether it has no audio.
pub Processing : CallStatus → Bool → Site → Result CallState × Site → Type 0
Processing cancelled silent s o = Refused s o
Processing created false s o = Started (noted_queued (with_status queued s.live)) s o
Processing queued false s o = Started (noted_queued s.live) s o
Processing _ false s o = Started s.live s o
Processing _ true s o = Silent s o

module _ (now : ℕ) (s : Site) (h : s.committed ≡ s.live) where
  process_cancelled :
      same_status s.live.db.call.status cancelled ≡ true → Refused s (request (process_call now) s)
  unfolding Refused request closed process_call check_process ◌>>=◌ continue gets raise
  process_cancelled e = (("Call is cancelled", ground arith), ground arith)

  process-Silent :
      same_status s.live.db.call.status cancelled ≡ false
      → no_audio s.live.assets ≡ true
      → Silent s (request (process_call now) s)
  unfolding Silent request closed process_call check_process ◌>>=◌ continue gets raise
  process-Silent e a = (ground arith, ground arith)

  process_other :
      same_status s.live.db.call.status cancelled ≡ false
      → no_audio s.live.assets ≡ false
      → same_status s.live.db.call.status created ≡ false
      → same_status s.live.db.call.status queued ≡ false
      → Started s.live s (request (process_call now) s)
  unfolding Started request closed process_call check_process when ◌>>=◌ continue gets pure commit
      enqueue_process
  process_other e a c q = (ground arith, ground arith)

  process_queued :
      s.live.db.call.status ≡ queued
      → no_audio s.live.assets ≡ false
      → Started (noted_queued s.live) s (request (process_call now) s)
  unfolding Started noted_queued request closed process_call check_process when ◌>>=◌ continue gets
      pure modify commit enqueue_process log_event
  process_queued e a = (ground arith, ground arith)

  process_created :
      s.live.db.call.status ≡ created
      → no_audio s.live.assets ≡ false
      → Started (noted_queued (with_status queued s.live)) s (request (process_call now) s)
  unfolding Started with_status noted_queued request closed process_call check_process when ◌>>=◌
      continue gets pure modify move_to entered transition enter is_allowed commit enqueue_process
      log_event
  process_created e a = (ground arith, ground arith)

  processing :
      (st : CallStatus) (silent : Bool)
      → s.live.db.call.status ≡ st
      → no_audio s.live.assets ≡ silent
      → Processing st silent s (request (process_call now) s)
  unfolding Processing
  processing cancelled silent e a = process_cancelled (ap (λ x. same_status x cancelled) e)
  processing created false e a = process_created e a
  processing queued false e a = process_queued e a
  processing uploading false e a =
      process_other (ap (λ x. same_status x cancelled) e) a (ap (λ x. same_status x created) e)
        (ap (λ x. same_status x queued) e)
  processing transcribing false e a =
      process_other (ap (λ x. same_status x cancelled) e) a (ap (λ x. same_status x created) e)
        (ap (λ x. same_status x queued) e)
  processing waiting_for_recap false e a =
      process_other (ap (λ x. same_status x cancelled) e) a (ap (λ x. same_status x created) e)
        (ap (λ x. same_status x queued) e)
  processing analyzing false e a =
      process_other (ap (λ x. same_status x cancelled) e) a (ap (λ x. same_status x created) e)
        (ap (λ x. same_status x queued) e)
  processing validating false e a =
      process_other (ap (λ x. same_status x cancelled) e) a (ap (λ x. same_status x created) e)
        (ap (λ x. same_status x queued) e)
  processing indexing false e a =
      process_other (ap (λ x. same_status x cancelled) e) a (ap (λ x. same_status x created) e)
        (ap (λ x. same_status x queued) e)
  processing building_report false e a =
      process_other (ap (λ x. same_status x cancelled) e) a (ap (λ x. same_status x created) e)
        (ap (λ x. same_status x queued) e)
  processing shipped false e a =
      process_other (ap (λ x. same_status x cancelled) e) a (ap (λ x. same_status x created) e)
        (ap (λ x. same_status x queued) e)
  processing partial false e a =
      process_other (ap (λ x. same_status x cancelled) e) a (ap (λ x. same_status x created) e)
        (ap (λ x. same_status x queued) e)
  processing failed false e a =
      process_other (ap (λ x. same_status x cancelled) e) a (ap (λ x. same_status x created) e)
        (ap (λ x. same_status x queued) e)
  processing created true e a = process-Silent (ap (λ x. same_status x cancelled) e) a
  processing queued true e a = process-Silent (ap (λ x. same_status x cancelled) e) a
  processing uploading true e a = process-Silent (ap (λ x. same_status x cancelled) e) a
  processing transcribing true e a = process-Silent (ap (λ x. same_status x cancelled) e) a
  processing waiting_for_recap true e a = process-Silent (ap (λ x. same_status x cancelled) e) a
  processing analyzing true e a = process-Silent (ap (λ x. same_status x cancelled) e) a
  processing validating true e a = process-Silent (ap (λ x. same_status x cancelled) e) a
  processing indexing true e a = process-Silent (ap (λ x. same_status x cancelled) e) a
  processing building_report true e a = process-Silent (ap (λ x. same_status x cancelled) e) a
  processing shipped true e a = process-Silent (ap (λ x. same_status x cancelled) e) a
  processing partial true e a = process-Silent (ap (λ x. same_status x cancelled) e) a
  processing failed true e a = process-Silent (ap (λ x. same_status x cancelled) e) a

-- A request to process a cancelled call raises ConflictError, and one for any other call without audio
-- InvalidAudio; both change nothing. With audio, a created call is put to QUEUED and a queued one
-- stays, with one event that says so, and any other call stays as it is; this is committed, and then
-- the call is queued for a worker.
pub process_call-Processing :
    (now : ℕ) (s : Site)
    → s.committed ≡ s.live
    → Processing s.live.db.call.status (no_audio s.live.assets) s (request (process_call now) s)
process_call-Processing now s h =
    processing now s h s.live.db.call.status (no_audio s.live.assets) refl refl
