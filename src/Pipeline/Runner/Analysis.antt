-- ===== src/Pipeline/Runner/Analysis.antt =====
-- app/pipeline/runner.py, `_analyze`: labels, candidates, the validator's verdicts, the chunks and the
-- report. The metrics of the call, which nothing else reads, are left out.
use deal_truth_api.Prelude.{
  ℕ, ◌-◌, Bool, true, false, Option, none, some, List, [], ◌∷◌, ◌++◌, String, Text, Dict, keep, map,
  insert, length,
}
use deal_truth_api.Core.Enums.{
  CallStatus, analyzing, validating, indexing, shipped, partial, EventState, SpeakerRole, same_role,
}
use deal_truth_api.Ml.Axes.{EmotionAxes, LabelScore}
use deal_truth_api.Intelligence.Domain.{Segment, ValidatedInsight}
use deal_truth_api.Intelligence.Ask.{Chunk, chunk_segments}
use deal_truth_api.Intelligence.Extract.Commitments.{RecapActionItem}
use deal_truth_api.Evidence.{EvidenceEvent, Message, shippable}
use deal_truth_api.Pipeline.Analyze.{judged}
use deal_truth_api.Pipeline.Session.{
  Result, ok, Exec, Recap, ◌>>=◌, ◌>>◌, pure, lift, commit, move_to, log_event,
}
use deal_truth_api.Pipeline.Persist.{persist_insights, persist_chunks}
use deal_truth_api.Pipeline.Runner.Deps.{PipelineDeps}
use deal_truth_api.Pipeline.Runner.Stages.{ml_or_warn, current_warnings}

abbrev pub texts_of : List Segment → List Text
texts_of views = map (λ (s : Segment). s.text) views

unfoldable pub is_customer : Segment → Bool
is_customer s = same_role s.speaker_role SpeakerRole.customer

abbrev head_labels : List (Dict ℕ) → Dict ℕ
head_labels [] = []
head_labels (l ∷ ls) = l

abbrev tail_of : {A : Type 0} → List A → List A
tail_of [] = []
tail_of (a ∷ rest) = rest

-- `{item.label: item.score for item in axes.emotion}`
unfoldable pub emotion_map : Dict ℕ → List LabelScore → Dict ℕ
emotion_map m [] = m
emotion_map m ((label, n) ∷ rest) = emotion_map (insert label n m) rest

-- The i-th result labels the i-th view; the rows of emotions go to the customer's views, in order.
unfoldable pub labelled_with :
    List Segment → List (Dict ℕ) → List EmotionAxes → List Segment × List (ℕ × EmotionAxes)
labelled_with [] labels rows = ([], [])
labelled_with (view ∷ views) labels [] =
    let (rest, axes) = labelled_with views (tail_of labels) [] in
    (record view { labels = head_labels labels; emotions = [] } ∷ rest, axes)
labelled_with (view ∷ views) labels (row ∷ rows) = elim (is_customer view) [
  | true ↦
      let (rest, axes) = labelled_with views (tail_of labels) rows in
      (
        record view { labels = head_labels labels; emotions = emotion_map [] row.emotion } ∷ rest,
        (view.id, row) ∷ axes,
      )
  | false ↦
      let (rest, axes) = labelled_with views (tail_of labels) (row ∷ rows) in
      (record view { labels = head_labels labels; emotions = [] } ∷ rest, axes)
]

-- Nothing is asked for an empty list.
unfoldable pub rows_for :
    {A : Type 0} → String → (List Text → Result (List A)) → List Text → Exec (List A)
rows_for stage ask [] = pure []
rows_for stage ask (t ∷ ts) = ml_or_warn stage (ask (t ∷ ts))

-- The message of the event; the id of a missing segment is left out.
abbrev message_text : Message → String
message_text Message.no_evidence = "no evidence for factual insight"
message_text (Message.missing sid) = "missing segment"
message_text (Message.expected SpeakerRole.seller) = "expected seller"
message_text (Message.expected SpeakerRole.customer) = "expected customer"
message_text (Message.expected SpeakerRole.unknown) = "expected unknown"
message_text Message.not_in_transcript = "quote is not in transcript"
message_text Message.duplicate = "duplicate insight/evidence"
message_text Message.below_threshold = "below confidence threshold"

-- Each event of the validator has a code, so that it is logged as failed.
unfoldable pub log_events : List EvidenceEvent → Exec Unit
log_events [] = pure tt
log_events (e ∷ events) =
    let rest : Exec Unit = log_events events in
    (log_event "validate" EventState.failed (some e.error_code) (some (message_text e.message))
      >> rest)

-- `recap.action_items`; none where there is no recap.
abbrev pub items_of : Option Recap → List RecapActionItem
items_of none = []
items_of (some recap) = recap.action_items

-- `CallStatus.PARTIAL if warnings else CallStatus.SHIPPED`
abbrev pub outcome_for : List String → CallStatus
outcome_for [] = shipped
outcome_for (w ∷ ws) = partial

unfoldable pub add_report : List ValidatedInsight → List String → Exec Unit
add_report insights warnings s = (
  ok tt,
  record s {
    reports =
        s.reports
        ++ record {
          outcome = outcome_for warnings;
          insights = shippable insights;
          refused_count = length insights - length (shippable insights);
          warnings = warnings;
        }
          ∷ [];
  },
)

unfoldable pub store_report : PipelineDeps → List ValidatedInsight → Exec Unit
store_report v insights = do
  lift (v.put "report.json")
  warnings ← current_warnings
  add_report insights warnings
  lift (v.put "report.md")

unfoldable pub index : PipelineDeps → List Segment → Exec Unit
index v views = do
  let chunks = chunk_segments 800 views
  vectors ← rows_for "embed" v.embed (map (λ (c : Chunk). c.text) chunks)
  persist_chunks chunks vectors

unfoldable pub judge_views :
    PipelineDeps
    → List Segment
    → List (ℕ × EmotionAxes)
    → Option Recap
    → Exec (List ValidatedInsight)
judge_views v views axes recap = do
  let verdicts = judged views axes (items_of recap) v.tracked v.confidence_threshold
  move_to v.now validating none
  commit
  log_events verdicts.1
  persist_insights verdicts.0
  pure verdicts.0

-- `_analyze`
unfoldable pub analyze : PipelineDeps → List Segment → Option Recap → Exec (List Segment)
analyze v views recap = do
  move_to v.now analyzing none
  log_event "analyze" EventState.started none none
  commit
  labels ← rows_for "classify" v.classify (texts_of views)
  rows ← rows_for "emotion" v.emotions (texts_of (keep is_customer views))
  let updated = labelled_with views labels rows
  insights ← judge_views v updated.0 updated.1 recap
  move_to v.now indexing none
  commit
  index v updated.0
  store_report v insights
  log_event "analyze" EventState.succeeded none none
  commit
  pure updated.0
