-- ===== src/Evidence/Claims.antt =====
-- The claims that the insights of app/evidence/__init__.py make: a type and a title on a segment.
use deal_truth_api.Prelude.{
  ℕ, ◌≡◌, refl, ap, subst, All-mem, Pairwise-map, true, false, List, [], ◌∷◌, ◌++◌, map, All,
  All-map, Pairwise, Memᴰ,
}
use deal_truth_api.Core.Enums.{EvidenceStatus}
use deal_truth_api.Intelligence.Domain.{Segment, CandidateInsight, ValidatedInsight}
use deal_truth_api.Evidence.Keys.{Key, seen_before, seen_before-mem, seen_before-append}
use deal_truth_api.Evidence.{
  Walked, backed, failed, walk, ship, unconfirmed_or_drop, claimed_keys, judge, judge_by, conclude,
  judge_factual, validate_from, validate_candidates,
}
use deal_truth_api.Evidence.Sound.{Ends, walk-Ends, Proof}

-- The claims that an insight makes: its type and title, on each of its segments.
pub insight_keys : ValidatedInsight → List Key
insight_keys i = map (λ (sid : ℕ). (i.type, i.title, sid)) i.segment_ids

-- None of the keys is in the set.
abbrev pub AllFresh : List Key → List Key → Type 0
AllFresh seen keys = All (λ (k : Key). seen_before k seen ≡ false) keys

claimed_keys-map :
    (cand : CandidateInsight) (ps : List (ℕ × Segment))
    → claimed_keys cand ps
      ≡ map (λ (sid : ℕ). (cand.type, cand.title, sid)) (map (λ (p : ℕ × Segment). p.0) ps)
claimed_keys-map cand [] = refl
claimed_keys-map cand ((sid, seg) ∷ ps) =
    ap (λ (l : List Key). (cand.type, cand.title, sid) ∷ l) (claimed_keys-map cand ps)

claimed_keys-AllFresh :
    (segments : List Segment) (cand : CandidateInsight) (seen : List Key) (ps : List (ℕ × Segment))
    → All (Proof segments cand seen) ps
    → AllFresh seen (claimed_keys cand ps)
claimed_keys-AllFresh segments cand seen [] h = tt
claimed_keys-AllFresh segments cand seen ((sid, seg) ∷ ps) h =
    (h.0.fresh, claimed_keys-AllFresh segments cand seen ps h.1)

module _ (threshold : ℕ) (segments : List Segment) (seen : List Key) (cand : CandidateInsight) where
  conclude_claims :
      (sids : List ℕ) (w : Walked)
      → Ends segments cand seen sids w
      → ((conclude threshold cand w).claims ≡ insight_keys (conclude threshold cand w).insight)
        × AllFresh seen (conclude threshold cand w).claims
  unfolding conclude insight_keys ship unconfirmed_or_drop
  conclude_claims sids (failed r) h = (refl, tt)
  conclude_claims sids (backed ps) h =
      (claimed_keys-map cand ps, claimed_keys-AllFresh segments cand seen ps h.1)

  factual_claims :
      (sids : List ℕ)
      → ((judge_factual threshold segments seen cand sids).claims
          ≡ insight_keys (judge_factual threshold segments seen cand sids).insight)
        × AllFresh seen (judge_factual threshold segments seen cand sids).claims
  unfolding judge_factual insight_keys unconfirmed_or_drop
  factual_claims [] = (refl, tt)
  factual_claims (sid ∷ sids) =
      conclude_claims (sid ∷ sids) (walk segments cand seen (sid ∷ sids))
        (walk-Ends segments cand seen (sid ∷ sids))

  by_claims :
      (s : EvidenceStatus)
      → ((judge_by s threshold segments seen cand).claims
          ≡ insight_keys (judge_by s threshold segments seen cand).insight)
        × AllFresh seen (judge_by s threshold segments seen cand).claims
  unfolding judge_by insight_keys ship
  by_claims EvidenceStatus.absence_based = (refl, tt)
  by_claims EvidenceStatus.non_factual = (refl, tt)
  by_claims EvidenceStatus.supported = factual_claims cand.segment_ids
  by_claims EvidenceStatus.unconfirmed = factual_claims cand.segment_ids

  pub judge_claims :
      ((judge threshold segments seen cand).claims
        ≡ insight_keys (judge threshold segments seen cand).insight)
      × AllFresh seen (judge threshold segments seen cand).claims
  unfolding judge
  judge_claims = by_claims cand.evidence_status

-- The insights make none of the claims in the set.
abbrev Avoid : List Key → List ValidatedInsight → Type 0
Avoid seen kept = All (λ (i : ValidatedInsight). AllFresh seen (insight_keys i)) kept

AllFresh-front :
    (seen more : List Key) (keys : List Key) → AllFresh (seen ++ more) keys → AllFresh seen keys
AllFresh-front seen more keys = All-map (λ k h. (seen_before-append k seen more h).0) keys

AllFresh-back :
    (seen more : List Key) (keys : List Key) → AllFresh (seen ++ more) keys → AllFresh more keys
AllFresh-back seen more keys = All-map (λ k h. (seen_before-append k seen more h).1) keys

module _ (threshold : ℕ) (segments : List Segment) where
  validate_from-Avoid :
      (seen : List Key) (cands : List CandidateInsight)
      → Avoid seen (validate_from threshold segments seen cands).0
  unfolding validate_from
  validate_from-Avoid seen [] = tt
  validate_from-Avoid seen (cand ∷ rest) =
      let (same, fresh) = judge_claims threshold segments seen cand in
      let claims = (judge threshold segments seen cand).claims in
      (
        subst (AllFresh seen) same fresh,
        All-map (λ i h. AllFresh-front seen claims (insight_keys i) h)
            (validate_from threshold segments (seen ++ claims) rest).0
            (validate_from-Avoid (seen ++ claims) rest),
      )

  validate_from-Pairwise :
      (seen : List Key) (cands : List CandidateInsight)
      → Pairwise
          (λ i j. AllFresh (insight_keys i) (insight_keys j))
          (validate_from threshold segments seen cands).0
  unfolding validate_from
  validate_from-Pairwise seen [] = tt
  validate_from-Pairwise seen (cand ∷ rest) =
      let (same, fresh) = judge_claims threshold segments seen cand in
      let claims = (judge threshold segments seen cand).claims in
      (
        subst
            (λ (keys : List Key).
              Avoid keys (validate_from threshold segments (seen ++ claims) rest).0)
            same
            (All-map (λ i h. AllFresh-back seen claims (insight_keys i) h)
              (validate_from threshold segments (seen ++ claims) rest).0
              (validate_from-Avoid (seen ++ claims) rest)),
        validate_from-Pairwise (seen ++ claims) rest,
      )

-- The two insights make no claim in common.
abbrev pub Disjoint : ValidatedInsight → ValidatedInsight → Type 0
Disjoint i j = (k : Key) → Memᴰ k (insight_keys i) → Memᴰ k (insight_keys j) → ⊥

AllFresh-Disjoint :
    (i j : ValidatedInsight) → AllFresh (insight_keys i) (insight_keys j) → Disjoint i j
AllFresh-Disjoint i j fresh k mi mj =
    let unseen : seen_before k (insight_keys i) ≡ false =
      All-mem (λ (k : Key). seen_before k (insight_keys i) ≡ false) (insight_keys j) fresh mj in
    let found : seen_before k (insight_keys i) ≡ true = seen_before-mem mi in cc

-- Of any two insights that the validator keeps, no claim of the one (its type and its title, on one
-- of its segments) is a claim of the other.
pub validate_candidates-Disjoint :
    (cands : List CandidateInsight) (segments : List Segment) (threshold : ℕ)
    → Pairwise Disjoint (validate_candidates cands segments threshold).0
unfolding validate_candidates
validate_candidates-Disjoint cands segments threshold =
    Pairwise-map AllFresh-Disjoint (validate_from threshold segments [] cands).0
      (validate_from-Pairwise threshold segments [] cands)
