-- ===== src/Pipeline/Analyze.antt =====
-- app/pipeline/runner.py, `_analyze`: the candidates that go to the evidence validator.
pub mod Refusals
use deal_truth_api.Prelude.{ℕ, List, ◌++◌}
use deal_truth_api.Ml.Axes.{EmotionAxes}
use deal_truth_api.Intelligence.Domain.{Segment, CandidateInsight, ValidatedInsight}
use deal_truth_api.Intelligence.Extract.Customer.{
  extract_customer_truth, extract_sentiment, extract_buying_intent,
}
use deal_truth_api.Intelligence.Extract.Commitments.{RecapActionItem, extract_commitments}
use deal_truth_api.Intelligence.Extract.Objections.{
  Term, extract_objections, extract_competitors, extract_moments,
}
use deal_truth_api.Intelligence.Extract.Deal.{extract_reality_checks, extract_deal_killers}
use deal_truth_api.Evidence.{validate_candidates, EvidenceEvent}

-- The list `candidates`, from the labelled views, the axes, the recap's items and the tracked terms.
unfoldable pub candidates :
    List Segment → List (ℕ × EmotionAxes) → List RecapActionItem → List Term → List CandidateInsight
candidates views axes items tracked =
    extract_customer_truth views
    ++ (extract_sentiment views axes
        ++ (extract_buying_intent views
            ++ (extract_objections views
                ++ (extract_commitments views items
                    ++ (extract_reality_checks views
                        ++ (extract_deal_killers views (extract_buying_intent views)
                            ++ (extract_competitors views tracked ++ extract_moments views)))))))

-- The insights and events that `_analyze` has after the validator.
unfoldable pub judged :
    List Segment
    → List (ℕ × EmotionAxes)
    → List RecapActionItem
    → List Term
    → ℕ
    → List ValidatedInsight × List EvidenceEvent
judged views axes items tracked threshold =
    validate_candidates (candidates views axes items tracked) views threshold
