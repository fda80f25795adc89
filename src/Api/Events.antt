-- ===== src/Api/Events.antt =====
-- app/api/v1/calls.py: the events of a call, as a list and as a stream. Times are in milliseconds, so that
-- the sums of the loop are exact and the source's epsilon is 0.
pub mod Closing
use deal_truth_api.Prelude.{
  ℕ, ◌+◌, ◌-◌, zero, suc, Bool, true, false, ◌&&◌, Option, none, some, List, [], ◌∷◌, ◌++◌, String,
  Text, Dict, lookup, codes, any, keep, map, ltb, leb, if◌then◌else◌, str_eq,
}
use deal_truth_api.Core.Enums.{
  CallStatus, created, uploading, queued, transcribing, waiting_for_recap, analyzing, validating,
  indexing, building_report, shipped, partial, failed, cancelled, EventState, is_terminal,
  status_value,
}
use deal_truth_api.Pipeline.State.{Event}

-- `_STAGE_TO_STATUS`
unfoldable pub stage_to_status : Dict String
stage_to_status =
    ("created", "CREATED")
    ∷ ("upload", "UPLOADING")
    ∷ ("source_url", "UPLOADING")
    ∷ ("queued", "QUEUED")
    ∷ ("transcribe", "TRANSCRIBING")
    ∷ ("recap", "WAITING_FOR_RECAP")
    ∷ ("analyze", "ANALYZING")
    ∷ ("validate", "VALIDATING")
    ∷ ("index", "INDEXING")
    ∷ ("report", "BUILDING_REPORT")
    ∷ ("cancel", "CANCELLED")
    ∷ []

abbrev all_statuses : List CallStatus
all_statuses =
    created ∷ uploading ∷ queued ∷ transcribing ∷ waiting_for_recap ∷ analyzing ∷ validating
    ∷ indexing ∷ building_report ∷ shipped ∷ partial ∷ failed ∷ cancelled ∷ []

-- `message in _CALL_STATUS_VALUES`
unfoldable pub is_status_value : String → Bool
unfolding status_value
is_status_value m = any (λ (s : CallStatus). str_eq (status_value s) m) all_statuses

-- `str.upper()`, on the letters a to z.
unfoldable pub upper : Text → Text
upper = map (λ c. if leb b'a' c && leb c b'z' then c - 32 else c)

abbrev stage_of : String → Option String → Text
stage_of stage none = upper (codes stage)
stage_of stage (some status) = codes status

abbrev completed : Option String → Option String
completed none = none
completed (some m) = if is_status_value m then some m else none

abbrev or_stage : Option String → Text → Text
or_stage none t = t
or_stage (some m) t = codes m

unfoldable pub event_stage : String → Option String → Text
unfolding stage_to_status is_status_value upper
event_stage stage message =
    or_stage (if str_eq stage "complete" then completed message else none)
      (stage_of stage (lookup stage stage_to_status))

-- `event_state`: the value of the state in lower case.
unfoldable pub event_state : EventState → String
event_state EventState.started = "started"
event_state EventState.succeeded = "succeeded"
event_state EventState.failed = "failed"
event_state EventState.retrying = "retrying"
event_state EventState.skipped = "skipped"

-- A row of `ProcessingEvent` with its time.
abbrev pub Stamped : Type 0
Stamped = ℕ × Event

-- `EventOut`
pub record EventOut : Type 0 where
  pub created_at : ℕ
  pub stage : Text
  pub state : String
  pub attempt : ℕ
  pub error_code : Option String
  pub message : Option String

unfoldable pub event_out : Stamped → EventOut
unfolding event_stage event_state
event_out (at, e) = record {
  created_at = at;
  stage = event_stage e.stage e.message;
  state = event_state e.state;
  attempt = e.attempt;
  error_code = e.error_code;
  message = e.message;
}

-- `list_events`, of the rows in the order of their times.
unfoldable pub list_events : List Stamped → List EventOut
unfolding event_out
list_events = map event_out

-- What the stream yields. A frame of an event carries its time as its id.
pub data Frame : Type 0 where
  not_found : Frame
  processing : CallStatus → EventOut → Frame
  terminal : CallStatus → Frame
  keepalive : Frame
  timeout : Option ℕ → CallStatus → Frame

-- `SSE_POLL_INTERVAL_SECONDS`, `SSE_KEEPALIVE_INTERVAL_SECONDS` and `SSE_IDLE_BUDGET_SECONDS`.
pub record Knobs : Type 0 where
  pub poll_interval : ℕ
  pub keepalive_interval : ℕ
  pub idle_budget : ℕ

abbrev pub production : Knobs
production = record { poll_interval = 250; keepalive_interval = 10000; idle_budget = 120000 }

-- What a poll reads: none if the call is gone, or its status and its events in the order of their
-- times.
abbrev pub Snapshot : Type 0
Snapshot = Option (CallStatus × List Stamped)

-- `created_at > after`
unfoldable pub is_new : Option ℕ → Stamped → Bool
is_new none row = true
is_new (some after) row = ltb after row.0

-- `after`, once the rows have been sent.
unfoldable pub after_rows : Option ℕ → List Stamped → Option ℕ
after_rows after [] = after
after_rows after (row ∷ rows) = after_rows (some row.0) rows

unfoldable pub frames_of : CallStatus → List Stamped → List Frame
unfolding event_out
frames_of status = map (λ (row : Stamped). processing status (event_out row))

-- The loop of the keepalives: their frames and the time of the next one. Fuel above the elapsed time is
-- enough, since each one adds at least a millisecond.
unfoldable pub keepalives : ℕ → ℕ → ℕ → ℕ → List Frame × ℕ
keepalives zero interval elapsed next = ([], next)
keepalives (suc fuel) interval elapsed next =
    let (more, last) = keepalives fuel interval elapsed (next + interval) in
    if leb next elapsed then (keepalive ∷ more, last) else ([], next)

-- `if keepalive_interval > 0`
unfoldable pub due : ℕ → ℕ → ℕ → List Frame × ℕ
unfolding keepalives
due zero elapsed next = ([], next)
due (suc interval) elapsed next = keepalives (suc elapsed) (suc interval) elapsed next

-- The frames of a stream, and whether it came to its end.
abbrev pub Stream : Type 0
Stream = List Frame × Bool

abbrev pub prepend : List Frame → Stream → Stream
prepend frames (more, ended) = (frames ++ more, ended)

-- The end of the budget.
unfoldable pub spent : Option ℕ → Snapshot → Stream
spent after none = (not_found ∷ [], true)
spent after (some (status, rows)) = (timeout after status ∷ [], true)

-- A round of the loop; `again` goes on with the time of the next keepalive and the last event.
unfoldable pub polled : Knobs → ℕ → ℕ → Option ℕ → Snapshot → (ℕ → Option ℕ → Stream) → Stream
unfolding is_new after_rows frames_of due
polled knobs elapsed next after none again = (not_found ∷ [], true)
polled knobs elapsed next after (some (status, rows)) again =
    let fresh = keep (is_new after) rows in
    if is_terminal status
    then (frames_of status fresh ++ terminal status ∷ [], true)
    else (let (alive, later) = due knobs.keepalive_interval elapsed next in
        prepend (frames_of status fresh) (prepend alive (again later (after_rows after fresh))))

-- The loop: `n` is the number of the poll, and `snapshots n` what it reads.
unfoldable pub stream_from : ℕ → Knobs → (ℕ → Snapshot) → ℕ → ℕ → ℕ → Option ℕ → Stream
unfolding polled spent
stream_from zero knobs snapshots n elapsed next after = ([], false)
stream_from (suc fuel) knobs snapshots n elapsed next after =
    let again = stream_from fuel knobs snapshots (suc n) (elapsed + knobs.poll_interval) in
    if ltb elapsed knobs.idle_budget
    then polled knobs (elapsed + knobs.poll_interval) next after (snapshots n) again
    else spent after (snapshots n)

-- `stream_events`; `after` is the client's last event, if it names one. A poll takes at least a
-- millisecond.
unfoldable pub stream_events : Knobs → (ℕ → Snapshot) → Option ℕ → Stream
unfolding stream_from
stream_events knobs snapshots after =
    stream_from (suc knobs.idle_budget) knobs snapshots 0 0 knobs.keepalive_interval after
