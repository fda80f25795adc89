-- ===== src/Api/Deals.antt =====
-- app/api/v1/deals.py: the calls of an account, and what changed between them.
pub mod Series
use deal_truth_api.Prelude.{
  ℕ, ◌-◌, ◌/◌, Bool, ◌&&◌, Option, none, some, List, [], ◌∷◌, ◌++◌, String, Text, codes, keep,
  first, map, ltb, same_text, strip, length, if◌then◌else◌,
}
use deal_truth_api.Core.Enums.{InsightType, same_type}
use deal_truth_api.Core.Errors.{named, ErrorClass, RequestError}
use deal_truth_api.Intelligence.Domain.{ValidatedInsight}
use deal_truth_api.Intelligence.Dimensions.{Signal, Pips, signal_pips, Delta, dimension_deltas}
use deal_truth_api.Pipeline.Session.{AnalysisRun, Result, ok, err}

-- `Deal`
pub record Deal : Type 0 where
  pub id : ℕ
  pub account_name : Text
  pub primary_contact : Option Text

-- The columns and the runs of a call that a deal reads.
pub record DealCall : Type 0 where
  pub id : ℕ
  pub title : Option Text
  pub created_at : ℕ
  pub duration_ms : Option ℕ
  pub deal_id : Option ℕ
  pub customer_name : Option Text
  pub runs : List AnalysisRun

abbrev pub or_empty : Option Text → Text
or_empty none = []
or_empty (some t) = t

-- The rows of `Deal` and the call, after `attach_to_deal`. `fresh` is the new UUID, and `ilike` the
-- database's operator: `ilike a p` says whether `a` fits the pattern `p`.
module _ (ilike : Text → Text → Bool) where
  unfoldable pub attach_found : ℕ → Text → Option Deal → List Deal → DealCall → List Deal × DealCall
  attach_found fresh name none deals call = (
    deals ++ record { id = fresh; account_name = name; primary_contact = none } ∷ [],
    record call { deal_id = some fresh },
  )
  attach_found fresh name (some deal) deals call = (deals, record call { deal_id = some deal.id })

  unfoldable pub attach_named : ℕ → Text → List Deal → DealCall → List Deal × DealCall
  unfolding attach_found
  attach_named fresh [] deals call = (deals, call)
  attach_named fresh (c ∷ name) deals call =
      attach_found fresh (c ∷ name) (first (λ (d : Deal). ilike d.account_name (c ∷ name)) deals)
        deals call

  unfoldable pub attach_to_deal : ℕ → List Deal → DealCall → List Deal × DealCall
  unfolding attach_named
  attach_to_deal fresh deals call =
      attach_named fresh (strip (or_empty call.customer_name)) deals call

-- `order_by(AnalysisRun.version.desc()).first()`
unfoldable pub later_run : AnalysisRun → Option AnalysisRun → AnalysisRun
later_run r none = r
later_run r (some q) = if ltb r.version q.version then q else r

unfoldable pub latest_run : List AnalysisRun → Option AnalysisRun
unfolding later_run
latest_run [] = none
latest_run (r ∷ runs) = some (later_run r (latest_run runs))

abbrev pub signal_of_insight : ValidatedInsight → Signal
signal_of_insight i = record { title = i.title; confidence = i.confidence; payload = i.payload }

abbrev pub is_signal : ValidatedInsight → Bool
is_signal i = same_type i.type InsightType.qualification_signal

-- `_states_for_run`
unfoldable pub states_for_run : Option AnalysisRun → Pips
states_for_run none = signal_pips []
states_for_run (some run) = signal_pips (map signal_of_insight (keep is_signal run.insights))

-- `_evidence_for_dimension`: the links of an insight are its segments, in the order of `sort_order`.
unfoldable pub evidence_for_dimension : Option AnalysisRun → String → List ℕ
evidence_for_dimension none dimension = []
evidence_for_dimension (some run) dimension =
    elim (first (λ (i : ValidatedInsight). is_signal i && same_text i.title (codes dimension))
      run.insights) [ none ↦ [] | some i ↦ i.segment_ids ]

pub record Entry : Type 0 where
  pub call_id : ℕ
  pub title : Option Text
  pub created_at : ℕ
  pub duration_ms : Option ℕ
  pub dimension_states : Pips

unfoldable pub entry_of : DealCall → Entry
unfolding latest_run states_for_run
entry_of call = record {
  call_id = call.id;
  title = call.title;
  created_at = call.created_at;
  duration_ms = call.duration_ms;
  dimension_states = states_for_run (latest_run call.runs);
}

-- A delta of a deal: the change, the two calls, and what the earlier one cites.
pub record DealDelta : Type 0 where
  pub change : Delta
  pub from_call_id : ℕ
  pub to_call_id : ℕ
  pub evidence_segment_ids : List ℕ

unfoldable pub deltas_between : DealCall → DealCall → List DealDelta
unfolding entry_of evidence_for_dimension
deltas_between before after =
    map
      (λ (change : Delta). record {
        change = change;
        from_call_id = before.id;
        to_call_id = after.id;
        evidence_segment_ids = evidence_for_dimension (latest_run before.runs) change.dimension;
      })
      (dimension_deltas (entry_of before).dimension_states (entry_of after).dimension_states)

-- The loop over `range(1, len(entries))`.
unfoldable pub deltas_after : DealCall → List DealCall → List DealDelta
unfolding deltas_between
deltas_after before [] = []
deltas_after before (call ∷ calls) = deltas_between before call ++ deltas_after call calls

unfoldable pub deal_deltas : List DealCall → List DealDelta
unfolding deltas_after
deal_deltas [] = []
deal_deltas (call ∷ calls) = deltas_after call calls

unfoldable pub last_call : DealCall → List DealCall → DealCall
last_call call [] = call
last_call call (next ∷ calls) = last_call next calls

abbrev pub ms_per_day : ℕ
ms_per_day = 86400000

-- `(calls[-1].created_at - calls[0].created_at).days`, of calls in the order of their creation.
unfoldable pub span_days : List DealCall → ℕ
unfolding last_call
span_days [] = 0
span_days (call ∷ calls) = ((last_call call calls).created_at - call.created_at) / ms_per_day

pub record DealView : Type 0 where
  pub id : ℕ
  pub account_name : Text
  pub primary_contact : Option Text
  pub call_count : ℕ
  pub span_days : ℕ
  pub calls : List Entry
  pub deltas : List DealDelta

-- `calls` are the calls of the deal in the order of their creation.
unfoldable pub get_deal : Option Deal → List DealCall → Result DealView
get_deal none calls = err (named (ErrorClass.request RequestError.not_found_error) "Deal not found")
get_deal (some deal) calls = ok (record {
  id = deal.id;
  account_name = deal.account_name;
  primary_contact = deal.primary_contact;
  call_count = length calls;
  span_days = span_days calls;
  calls = map entry_of calls;
  deltas = deal_deltas calls;
})
