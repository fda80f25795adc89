-- ===== src/Intelligence/Extract/Customer.antt =====
-- app/intelligence/extract.py: what the customer's own segments establish (`extract_customer_truth`,
-- `extract_sentiment`, `extract_buying_intent`).
use deal_truth_api.Prelude.{
  ℕ, Bool, true, false, Option, none, some, List, [], ◌∷◌, ◌++◌, String, Dict, codes, spaced, ◌==◌,
  insert, if◌then◌else◌,
}
use deal_truth_api.Core.Enums.{SpeakerRole, EvidenceStatus, InsightType}
use deal_truth_api.Ml.Axes.{EmotionAxes, any_available, grouped, top_score, Grouped}
use deal_truth_api.Intelligence.Domain.{Segment, CandidateInsight, Value}
use deal_truth_api.Intelligence.Extract.{
  score, clears, customer_segments, best, max_label, quantified_pain, citing,
}

-- `CUSTOMER_TRUTH_MAP`
abbrev pub customer_truth_map : List (String × String)
customer_truth_map =
    ("pain point", "pain")
    ∷ ("feature requirement", "requirement")
    ∷ ("integration requirement", "requirement")
    ∷ ("positive buying signal", "buying_signal")
    ∷ ("security blocker", "blocker")
    ∷ ("budget blocker", "budget")
    ∷ ("technical blocker", "blocker")
    ∷ ("purchase timeline", "timeline")
    ∷ ("competitor mention", "competition")
    ∷ ("customer commitment", "commitment")
    ∷ []

unfoldable pub truth_of : Segment → String × String → CandidateInsight
truth_of seg (label, category) =
    let c =
      citing InsightType.customer_fact (codes "Customer " ++ spaced (codes category)) seg
        (score seg label) in
    record c {
      required_role = some SpeakerRole.customer;
      payload =
          ("label", Value.text (codes category)) ∷ ("ml_label", Value.text (codes label)) ∷ [];
    }

unfoldable pub truths_of : Segment → List (String × String) → List CandidateInsight
unfolding truth_of
truths_of seg [] = []
truths_of seg ((label, category) ∷ more) =
    if clears (score seg label)
    then truth_of seg (label, category) ∷ truths_of seg more
    else truths_of seg more

unfoldable pub customer_truth_from : List Segment → List CandidateInsight
unfolding truths_of
customer_truth_from [] = []
customer_truth_from (seg ∷ segs) = truths_of seg customer_truth_map ++ customer_truth_from segs

unfoldable pub extract_customer_truth : List Segment → List CandidateInsight
unfolding customer_truth_from
extract_customer_truth segments = customer_truth_from (customer_segments segments)

-- `lookup.get(seg.id)` in the map from segments to their axes.
unfoldable pub axes_of : List (ℕ × EmotionAxes) → ℕ → Option EmotionAxes
axes_of [] sid = none
axes_of ((tid, axes) ∷ rest) sid = if tid == sid then some axes else axes_of rest sid

-- `EmotionAxes.as_payload`, behind the time of the segment.
unfoldable pub axes_payload : Segment → EmotionAxes → Dict Value
axes_payload seg axes =
    ("timestamp_ms", Value.number seg.start_ms)
    ∷ ("emotion", Value.scores axes.emotion)
    ∷ ("buying_intent", Value.scores axes.buying_intent)
    ∷ ("deal_signals", Value.scores axes.deal_signals)
    ∷ (
      "unavailable",
      Value.flags (
          ("emotion", axes.unavailable.emotion)
          ∷ ("buying_intent", axes.unavailable.buying_intent)
          ∷ ("deal_signals", axes.unavailable.deal_signals)
          ∷ []),
    )
    ∷ []

-- `payload["grouped"] = grouped`, if there is a roll-up.
unfoldable pub with_rollup : Option Grouped → Dict Value → Dict Value
with_rollup none payload = payload
with_rollup (some g) payload = insert "grouped" (Value.rollup g) payload

abbrev or_half : Option ℕ → ℕ
or_half none = 5000
or_half (some n) = n

unfoldable pub sentiment_of : Segment → EmotionAxes → CandidateInsight
unfolding axes_payload with_rollup
sentiment_of seg axes =
    let c =
      citing InsightType.sentiment_point (codes "Customer emotion") seg
        (or_half (top_score axes)) in
    record c {
      required_role = some SpeakerRole.customer;
      payload = with_rollup (grouped axes) (axes_payload seg axes);
    }

unfoldable pub sentiment_at : Segment → Option EmotionAxes → List CandidateInsight
unfolding sentiment_of
sentiment_at seg none = []
sentiment_at seg (some axes) = if any_available axes then sentiment_of seg axes ∷ [] else []

unfoldable pub sentiment_from : List (ℕ × EmotionAxes) → List Segment → List CandidateInsight
unfolding sentiment_at
sentiment_from axes [] = []
sentiment_from axes (seg ∷ segs) =
    sentiment_at seg (axes_of axes seg.id) ++ sentiment_from axes segs

unfoldable pub extract_sentiment : List Segment → List (ℕ × EmotionAxes) → List CandidateInsight
unfolding sentiment_from
extract_sentiment segments axes = sentiment_from axes (customer_segments segments)

-- The dict `dimensions` of `extract_buying_intent`.
unfoldable pub dimension_hits : List Segment → List (String × (Option Segment × ℕ))
dimension_hits cust =
    ("pain_identified", best cust "pain point")
    ∷ ("business_impact_identified", quantified_pain cust)
    ∷ ("timeline_identified", best cust "purchase timeline")
    ∷ ("economic_buyer_identified", best cust "economic buyer identified")
    ∷ ("decision_maker_identified", best cust "decision maker identified")
    ∷ ("next_meeting_committed", best cust "next meeting commitment")
    ∷ ("competitor_active", best cust "competitor mention")
    ∷ (
      "blocker_active",
      max_label cust ("security blocker" ∷ "budget blocker" ∷ "technical blocker" ∷ []),
    )
    ∷ []

abbrev signal_payload : String → Bool → Dict Value
signal_payload name present =
    ("dimension", Value.text (codes name)) ∷ ("present", Value.flag present) ∷ []

-- A dimension with its segment, where the score clears the threshold.
unfoldable pub present_signal : String → Segment → ℕ → CandidateInsight
present_signal name seg n =
    let c = citing InsightType.qualification_signal (codes name) seg n in
    record c { required_role = some SpeakerRole.customer; payload = signal_payload name true }

unfoldable pub absent_signal : String → Bool → ℕ → CandidateInsight
absent_signal name present n = record {
  type = InsightType.qualification_signal;
  title = codes name;
  summary = codes name ++ codes " not supported by transcript";
  severity = none;
  confidence = n;
  evidence_status = EvidenceStatus.absence_based;
  segment_ids = [];
  payload = signal_payload name present;
  required_role = if present then some SpeakerRole.customer else none;
  relationship = "supports";
}

unfoldable pub signal_of : String → Option Segment → ℕ → CandidateInsight
unfolding present_signal absent_signal
signal_of name none n = absent_signal name (clears n) n
signal_of name (some seg) n =
    if clears n then present_signal name seg n else absent_signal name false n

unfoldable pub signals_of : List (String × (Option Segment × ℕ)) → List CandidateInsight
signals_of [] = []
signals_of ((name, (hit, n)) ∷ rest) = signal_of name hit n ∷ signals_of rest

unfoldable pub extract_buying_intent : List Segment → List CandidateInsight
unfolding signals_of
extract_buying_intent segments = signals_of (dimension_hits (customer_segments segments))
