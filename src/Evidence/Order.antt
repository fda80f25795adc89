-- ===== src/Evidence/Order.antt =====
-- What a refused candidate of app/evidence/__init__.py means for those after it.
use deal_truth_api.Prelude.{
  ℕ, ◌≡◌, refl, ap, true, not, List, [], ◌∷◌, ◌++◌, append-nil, if◌then◌else◌,
}
use deal_truth_api.Core.Enums.{EvidenceStatus}
use deal_truth_api.Intelligence.Domain.{Segment, CandidateInsight, ValidatedInsight}
use deal_truth_api.Evidence.Keys.{Key}
use deal_truth_api.Evidence.{
  Walked, backed, failed, walk, ship, judge, judge_by, conclude, judge_factual, validate_from,
  validate_candidates, shippable,
}

module _ (threshold : ℕ) (segments : List Segment) where
  conclude_dropped :
      (cand : CandidateInsight) (w : Walked)
      → (conclude threshold cand w).insight.dropped ≡ true
      → (conclude threshold cand w).claims ≡ []
  unfolding conclude ship
  conclude_dropped cand (failed r) h = refl
  conclude_dropped cand (backed ps) h = cc

  factual_dropped :
      (seen : List Key) (cand : CandidateInsight) (sids : List ℕ)
      → (judge_factual threshold segments seen cand sids).insight.dropped ≡ true
      → (judge_factual threshold segments seen cand sids).claims ≡ []
  unfolding judge_factual
  factual_dropped seen cand [] h = refl
  factual_dropped seen cand (sid ∷ sids) h =
      conclude_dropped cand (walk segments cand seen (sid ∷ sids)) h

  by_dropped :
      (seen : List Key) (cand : CandidateInsight) (s : EvidenceStatus)
      → (judge_by s threshold segments seen cand).insight.dropped ≡ true
      → (judge_by s threshold segments seen cand).claims ≡ []
  unfolding judge_by
  by_dropped seen cand EvidenceStatus.absence_based h = refl
  by_dropped seen cand EvidenceStatus.non_factual h = refl
  by_dropped seen cand EvidenceStatus.supported h = factual_dropped seen cand cand.segment_ids h
  by_dropped seen cand EvidenceStatus.unconfirmed h = factual_dropped seen cand cand.segment_ids h

  -- The set `seen` after the candidates.
  unfoldable pub seen_after : List Key → List CandidateInsight → List Key
  seen_after seen [] = seen
  seen_after seen (cand ∷ rest) =
      seen_after (seen ++ (judge threshold segments seen cand).claims) rest

  judge_dropped :
      (seen : List Key) (cand : CandidateInsight)
      → (judge threshold segments seen cand).insight.dropped ≡ true
      → (judge threshold segments seen cand).claims ≡ []
  unfolding judge
  judge_dropped seen cand h = by_dropped seen cand cand.evidence_status h

  validate_from-refused :
      (seen : List Key) (before : List CandidateInsight) (cand : CandidateInsight)
      (after : List CandidateInsight)
      → (judge threshold segments (seen_after seen before) cand).insight.dropped ≡ true
      → shippable (validate_from threshold segments seen (before ++ cand ∷ after)).0
        ≡ shippable (validate_from threshold segments seen (before ++ after)).0
  unfolding validate_from seen_after shippable
  validate_from-refused seen [] cand after h = rw (h, judge_dropped seen cand h, append-nil)
  validate_from-refused seen (c ∷ before) cand after h =
      let v = judge threshold segments seen c in
      ap (λ (l : List ValidatedInsight). if not v.insight.dropped then v.insight ∷ l else l)
        (validate_from-refused (seen ++ v.claims) before cand after h)

-- A candidate that is refused, wherever it stands, changes nothing of what ships: without it the
-- same insights ship, so it takes no segment from a later claim.
pub validate_candidates-refused :
    (before : List CandidateInsight) (cand : CandidateInsight) (after : List CandidateInsight)
    (segments : List Segment) (threshold : ℕ)
    → (judge threshold segments (seen_after threshold segments [] before) cand).insight.dropped
      ≡ true
    → shippable (validate_candidates (before ++ cand ∷ after) segments threshold).0
      ≡ shippable (validate_candidates (before ++ after) segments threshold).0
unfolding validate_candidates
validate_candidates-refused before cand after segments threshold h =
    validate_from-refused threshold segments [] before cand after h
