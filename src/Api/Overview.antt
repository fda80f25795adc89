-- ===== src/Api/Overview.antt =====
-- app/api/v1/calls.py: the making of a call, the list of the calls and their overview.
pub mod Counts
use deal_truth_api.Prelude.{
  ℕ, ◌+◌, suc, Bool, ◌&&◌, ◌||◌, Option, none, some, List, [], ◌∷◌, ◌++◌, String, Text, keep, map,
  take, length, ltb, ◌==◌, str_eq, if◌then◌else◌,
}
use deal_truth_api.Core.Enums.{
  CallStatus, created, shipped, partial, failed, cancelled, CallDirection, RecordingMode,
  InsightType, EventState, same_status, same_type, is_terminal,
}
use deal_truth_api.Intelligence.Domain.{ValidatedInsight}
use deal_truth_api.Intelligence.Dimensions.{Pips, signal_pips}
use deal_truth_api.Pipeline.State.{Event}
use deal_truth_api.Pipeline.Session.{AnalysisRun}
use deal_truth_api.Api.Deals.{
  Deal, DealCall, attach_to_deal, latest_run, signal_of_insight, is_signal,
}

-- `CallCreate`
pub record CallCreate : Type 0 where
  pub title : Option Text
  pub customer_name : Option Text
  pub rep_name : Option Text
  pub call_direction : CallDirection
  pub recording_mode : RecordingMode
  pub stereo_seller_channel : Option ℕ
  pub tracked_competitors : List Text
  pub tracked_keywords : List Text

pub data TrackedTermType : Type 0 where
  competitor keyword : TrackedTermType

-- The rows that a new call has: the call, its terms and its first event.
pub record NewCall : Type 0 where
  pub call : DealCall
  pub status : CallStatus
  pub rep_name : Option Text
  pub call_direction : CallDirection
  pub recording_mode : RecordingMode
  pub stereo_seller_channel : ℕ
  pub terms : List (TrackedTermType × Text)
  pub events : List Event

abbrev or_channel : Option ℕ → ℕ → ℕ
or_channel none d = d
or_channel (some n) d = n

unfoldable pub terms_of : TrackedTermType → List Text → List (TrackedTermType × Text)
terms_of type = map (λ (name : Text). (type, name))

-- `create_call` at the time `now`, with the new UUIDs of the call and of a deal; `ilike` is the
-- database's operator.
unfoldable pub create_call :
    (Text → Text → Bool) → ℕ → ℕ → ℕ → ℕ → CallCreate → List Deal → List Deal × NewCall
unfolding terms_of
create_call ilike now id deal_id default_channel body deals =
    let (deals', call) = attach_to_deal ilike deal_id deals (record {
      id = id;
      title = body.title;
      created_at = now;
      duration_ms = none;
      deal_id = none;
      customer_name = body.customer_name;
      runs = [];
    }) in
    (
      deals',
      record {
        call = call;
        status = created;
        rep_name = body.rep_name;
        call_direction = body.call_direction;
        recording_mode = body.recording_mode;
        stereo_seller_channel = or_channel body.stereo_seller_channel default_channel;
        terms =
            terms_of TrackedTermType.competitor body.tracked_competitors
            ++ terms_of TrackedTermType.keyword body.tracked_keywords;
        events =
            record {
              stage = "created";
              state = EventState.succeeded;
              attempt = 1;
              error_code = none;
              message = none;
            }
            ∷ [];
      },
    )

-- A call as the list and the overview read it.
pub record ListedCall : Type 0 where
  pub id : ℕ
  pub title : Option Text
  pub status : CallStatus
  pub duration_ms : Option ℕ
  pub created_at : ℕ
  pub runs : List AnalysisRun

-- `{"critical": 0, "high": 1, "medium": 2, "low": 3}.get(severity or "", 9)`
unfoldable pub severity_rank : Option String → ℕ
severity_rank none = 9
severity_rank (some s) =
    if str_eq s "critical"
    then 0
    else if str_eq s "high"
    then 1
    else if str_eq s "medium"
    then 2
    else if str_eq s "low"
    then 3
    else 9

-- The key `(rank, -confidence)` of the one is below that of the other.
unfoldable pub worse : ValidatedInsight → ValidatedInsight → Bool
unfolding severity_rank
worse a b =
    ltb (severity_rank a.severity) (severity_rank b.severity)
    || (severity_rank a.severity == severity_rank b.severity && ltb b.confidence a.confidence)

-- `sorted(risks, key=...)[0]`: the first of those that no other is worse than.
abbrev or_worse : ValidatedInsight → Option ValidatedInsight → ValidatedInsight
or_worse r none = r
or_worse r (some q) = if worse q r then q else r

unfoldable pub top_risk : List ValidatedInsight → Option ValidatedInsight
unfolding worse
top_risk [] = none
top_risk (r ∷ rest) = some (or_worse r (top_risk rest))

abbrev title_of : Option ValidatedInsight → Option Text
title_of none = none
title_of (some i) = some i.title

abbrev is_risk : ValidatedInsight → Bool
is_risk i = same_type i.type InsightType.deal_risk

-- `_pips_and_risk_by_call`, of one call's latest run.
unfoldable pub pips_and_risk : Option AnalysisRun → Pips × Option Text
unfolding top_risk
pips_and_risk none = (signal_pips [], none)
pips_and_risk (some run) = (
  signal_pips (map signal_of_insight (keep is_signal run.insights)),
  title_of (top_risk (keep is_risk run.insights)),
)

pub record CallSummary : Type 0 where
  pub id : ℕ
  pub title : Option Text
  pub status : CallStatus
  pub duration_ms : Option ℕ
  pub created_at : ℕ
  pub pips : Pips
  pub risk : Option Text

unfoldable pub summary_with : Pips × Option Text → ListedCall → CallSummary
summary_with (pips, risk) c = record {
  id = c.id;
  title = c.title;
  status = c.status;
  duration_ms = c.duration_ms;
  created_at = c.created_at;
  pips = pips;
  risk = risk;
}

-- `list_calls`, of the calls from the newest to the oldest.
unfoldable pub list_calls : List ListedCall → List CallSummary
unfolding pips_and_risk summary_with latest_run
list_calls = map (λ (c : ListedCall). summary_with (pips_and_risk (latest_run c.runs)) c)

-- `by_status`: a status that no call has is no key.
abbrev pub StatusCounts : Type 0
StatusCounts = List (CallStatus × ℕ)

-- `by_status[s] = by_status.get(s, 0) + 1`
unfoldable pub count_status : CallStatus → StatusCounts → StatusCounts
count_status s [] = (s, 1) ∷ []
count_status s ((t, n) ∷ rest) =
    if same_status t s then (t, suc n) ∷ rest else (t, n) ∷ count_status s rest

-- `by_status.get(s, 0)`
unfoldable pub count_of : CallStatus → StatusCounts → ℕ
count_of s [] = 0
count_of s ((t, n) ∷ rest) = if same_status t s then n else count_of s rest

-- `sum(count for status, count in by_status.items() if status not in terminal)`
unfoldable pub processing_of : StatusCounts → ℕ
processing_of [] = 0
processing_of ((t, n) ∷ rest) = if is_terminal t then processing_of rest else n + processing_of rest

abbrev pub or_zero : Option ℕ → ℕ
or_zero none = 0
or_zero (some n) = n

-- The loop over the calls.
unfoldable pub counted_from : StatusCounts × ℕ → List ListedCall → StatusCounts × ℕ
unfolding count_status
counted_from (counts, total) [] = (counts, total)
counted_from (counts, total) (c ∷ rest) =
    counted_from (count_status c.status counts, total + or_zero c.duration_ms) rest

pub record Overview : Type 0 where
  pub total_calls : ℕ
  pub by_status : StatusCounts
  pub shipped_calls : ℕ
  pub partial_calls : ℕ
  pub failed_calls : ℕ
  pub cancelled_calls : ℕ
  pub processing : ℕ
  pub total_duration_ms : ℕ
  pub recent_calls : List CallSummary

-- `calls_overview`, of the calls from the newest to the oldest, without the counts of the insights; its
-- summaries have no run.
unfoldable pub calls_overview : List ListedCall → Overview
unfolding counted_from count_of processing_of pips_and_risk summary_with
calls_overview rows =
    let (counts, total) = counted_from ([], 0) rows in
    record {
      total_calls = length rows;
      by_status = counts;
      shipped_calls = count_of shipped counts;
      partial_calls = count_of partial counts;
      failed_calls = count_of failed counts;
      cancelled_calls = count_of cancelled counts;
      processing = processing_of counts;
      total_duration_ms = total;
      recent_calls = map (summary_with (signal_pips [], none)) (take 10 rows);
    }
