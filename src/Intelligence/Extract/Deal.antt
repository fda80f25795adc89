-- ===== src/Intelligence/Extract/Deal.antt =====
-- app/intelligence/extract.py: `extract_reality_checks`, what the seller said against what the customer
-- said, and `extract_deal_killers`.
use deal_truth_api.Prelude.{
  ℕ, Bool, true, false, not, ◌&&◌, ◌||◌, Option, none, some, List, [], ◌∷◌, ◌++◌, String, codes,
  lookup, lower, contains, first, leb, ltb, same_text, if◌then◌else◌,
}
use deal_truth_api.Core.Enums.{SpeakerRole, InsightType, EvidenceStatus}
use deal_truth_api.Intelligence.Domain.{Segment, CandidateInsight, Value}
use deal_truth_api.Intelligence.Extract.{
  clears, customer_segments, seller_segments, best, max_label, citing,
}

abbrev pub ids_of : Option Segment → List ℕ
ids_of none = []
ids_of (some s) = s.id ∷ []

abbrev pub id_value : Option Segment → Value
id_value none = Value.null
id_value (some s) = Value.number s.id

-- The closure `add`: without a customer segment nothing is added.
unfoldable pub reality :
    String → String → Option Segment → Option Segment → String → List CandidateInsight
reality code title seller none severity = []
reality code title seller (some cust) severity =
    record {
      type = InsightType.reality_check;
      title = codes title;
      summary = codes code ++ codes ": seller statement vs customer evidence";
      severity = some severity;
      confidence = 8000;
      evidence_status = EvidenceStatus.supported;
      segment_ids = ids_of seller ++ cust.id ∷ [];
      payload =
          ("reason_code", Value.text (codes code))
          ∷ ("seller_segment_id", id_value seller)
          ∷ ("customer_segment_id", Value.number cust.id)
          ∷ [];
      required_role = none;
      relationship = "supports";
    }
    ∷ []

abbrev pub blockers : List String
blockers = "security blocker" ∷ "budget blocker" ∷ "technical blocker" ∷ []

-- `word in s.text.lower()`
says : String → Segment → Bool
says word s = contains (codes word) (lower s.text)

unfoldable pub meeting_claim : List Segment → Option Segment
unfolding says
meeting_claim =
    first (λ (s : Segment). says "next week" s || (says "follow-up" s || says "next meeting" s))

unfoldable pub head_of : List Segment → Option Segment
head_of [] = none
head_of (s ∷ rest) = some s

abbrev pub or_else : Option Segment → Option Segment → Option Segment
or_else (some s) d = some s
or_else none d = d

unfoldable pub weak_answer : List Segment → Option Segment
unfolding says head_of
weak_answer customer =
    or_else (first (λ (s : Segment). says "get back" s || says "send me" s) customer)
      (head_of customer)

unfoldable pub budget_claim : List Segment → Option Segment
unfolding says
budget_claim = first (λ (s : Segment). says "budget" s && says "approv" s)

unfoldable pub overstated : List Segment → List Segment → List CandidateInsight
overstated seller customer =
    if clears (best seller "positive buying signal").1 && clears (max_label customer blockers).1
    then reality "OVERSTATED_INTENT" "Seller confidence vs customer blocker"
        (best seller "positive buying signal").0 (max_label customer blockers).0 "high"
    else []

unfoldable pub no_commitment : Option Segment → List Segment → List CandidateInsight
unfolding weak_answer
no_commitment none customer = []
no_commitment (some meeting) customer =
    if ltb (best customer "next meeting commitment").1 5500
    then reality "NO_EXPLICIT_COMMITMENT"
        "Seller claimed a next meeting the customer did not commit to" (some meeting)
        (weak_answer customer) "high"
    else []

unfoldable pub versus_competitor : List Segment → List Segment → List CandidateInsight
versus_competitor seller customer =
    if clears (best seller "positive buying signal").1
      && clears (best customer "competitor mention").1
    then reality "COMPETITOR_VS_INTENT"
        "Seller described strong intent while customer is evaluating a competitor"
        (best seller "positive buying signal").0 (best customer "competitor mention").0 "medium"
    else []

unfoldable pub budget_mismatch : Option Segment → List Segment → List CandidateInsight
budget_mismatch none customer = []
budget_mismatch (some claim) customer =
    if clears (best customer "budget blocker").1
    then reality "BUDGET_MISMATCH"
        "Seller claimed budget approval while customer signaled a budget blocker" (some claim)
        (best customer "budget blocker").0 "high"
    else []

unfoldable pub checks_of : List Segment → List Segment → List CandidateInsight
unfolding overstated no_commitment meeting_claim versus_competitor budget_mismatch budget_claim
checks_of seller customer =
    overstated seller customer
    ++ (no_commitment (meeting_claim seller) customer
        ++ (versus_competitor seller customer ++ budget_mismatch (budget_claim seller) customer))

unfoldable pub extract_reality_checks : List Segment → List CandidateInsight
extract_reality_checks segments = checks_of (seller_segments segments) (customer_segments segments)

-- A risk that a customer segment shows, where the score reaches the bar.
unfoldable pub risk_at : ℕ → String → String → Option Segment × ℕ → List CandidateInsight
risk_at bar title kind (none, n) = []
risk_at bar title kind (some seg, n) =
    let c = citing InsightType.deal_risk (codes title) seg n in
    if leb bar n
    then record c {
      severity = some "high";
      required_role = some SpeakerRole.customer;
      payload = ("kind", Value.text (codes kind)) ∷ [];
    }
      ∷ []
    else []

unfoldable pub risks_of : List Segment → List CandidateInsight
unfolding risk_at
risks_of cust =
    risk_at 5500 "Security review required" "security_blocker" (best cust "security blocker")
    ++ (risk_at 5500 "Budget blocker" "budget_blocker" (best cust "budget blocker")
        ++ (risk_at 5500 "Active competitor" "active_competitor" (best cust "competitor mention")
            ++ (risk_at 5500 "Technical blocker" "technical_blocker" (best cust "technical blocker")
                ++ risk_at 7500 "Explicit rejection" "explicit_rejection"
                    (best cust "negative buying signal"))))

-- `present.get(dim)`: the last signal of that dimension, and whether it is present.
is_true : Option Value → Bool
is_true (some (Value.flag b)) = b
is_true _ = false

names : String → Option Value → Bool
names dim (some (Value.text t)) = same_text t (codes dim)
names dim _ = false

unfoldable pub present_from : Bool → String → List CandidateInsight → Bool
unfolding names is_true
present_from found dim [] = found
present_from found dim (c ∷ rest) =
    present_from
      (if names dim (lookup "dimension" c.payload)
        then is_true (lookup "present" c.payload)
        else found)
      dim rest

unfoldable pub absence : String → String → CandidateInsight
absence title kind = record {
  type = InsightType.deal_risk;
  title = codes title;
  summary = codes title ++ codes " — no supporting customer evidence in the transcript.";
  severity = some "medium";
  confidence = 10000;
  evidence_status = EvidenceStatus.absence_based;
  segment_ids = [];
  payload = ("kind", Value.text (codes kind)) ∷ ("absence", Value.flag true) ∷ [];
  required_role = none;
  relationship = "supports";
}

unfoldable pub absence_if : List CandidateInsight → String → String → String → List CandidateInsight
unfolding present_from absence
absence_if intent dim title kind =
    if not (present_from false dim intent) then absence title kind ∷ [] else []

unfoldable pub absences_of : List CandidateInsight → List CandidateInsight
unfolding absence_if
absences_of intent =
    absence_if intent "timeline_identified" "No purchase timeline" "no_timeline"
    ++ (absence_if intent "economic_buyer_identified" "No economic buyer" "no_economic_buyer"
        ++ absence_if intent "next_meeting_committed" "No next meeting" "no_next_meeting")

unfoldable pub extract_deal_killers : List Segment → List CandidateInsight → List CandidateInsight
extract_deal_killers segments intent = risks_of (customer_segments segments) ++ absences_of intent
