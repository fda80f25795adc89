-- ===== src/Pipeline/Analyze/Refusals.antt =====
-- app/pipeline/runner.py, `_analyze`: the candidates of the extractors before the validator.
use deal_truth_api.Prelude.{
  ℕ, ◌≡◌, refl, ap, sym, ◌≢◌, inl, inr, true, none, some, List, [], ◌∷◌, ◌++◌, All, All-append,
  Pairwise, Memᴰ, arith, subst, Option-cases,
}
use deal_truth_api.Core.Enums.{SpeakerRole, EvidenceStatus, same_role_refl}
use deal_truth_api.Ml.Axes.{EmotionAxes}
use deal_truth_api.Intelligence.Domain.{
  Segment, CandidateInsight, ValidatedInsight, already_claimed,
}
use deal_truth_api.Intelligence.Extract.Commitments.{RecapActionItem}
use deal_truth_api.Intelligence.Extract.Objections.{Term}
use deal_truth_api.Intelligence.Extract.Grounded.{Cites, Grounded}
use deal_truth_api.Intelligence.Extract.Grounded.Customer.{
  extract_customer_truth-Grounded, extract_sentiment-Grounded, extract_buying_intent-Grounded,
}
use deal_truth_api.Intelligence.Extract.Grounded.Commitments.{extract_commitments-Grounded}
use deal_truth_api.Intelligence.Extract.Grounded.Deal.{
  extract_objections-Grounded, extract_competitors-Grounded, extract_moments-Grounded,
}
use deal_truth_api.Intelligence.Extract.Grounded.Reality.{
  extract_reality_checks-Grounded, extract_deal_killers-Grounded,
}
use deal_truth_api.Evidence.Keys.{Key, seen_before, mem-seen_before}
use deal_truth_api.Evidence.Claims.{insight_keys, judge_claims}
use deal_truth_api.Evidence.{
  by_id, required, claimed_quote, Check, passed, stopped, check, check_found, Walked, backed,
  failed, walk, extend, ship, unconfirmed_or_drop, conclude, judge_factual, judge_by, judge,
  validate_from, validate_candidates,
}
use deal_truth_api.Pipeline.Analyze.{candidates, judged}

-- No two segments have one id.
abbrev pub DistinctIds : List Segment → Type 0
DistinctIds = Pairwise (λ (s t : Segment). s.id ≢ t.id)

by_id_absent :
    (segments : List Segment) (sid : ℕ)
    → All (λ (t : Segment). sid ≢ t.id) segments
    → by_id segments sid ≡ none
unfolding by_id
by_id_absent [] sid h = refl
by_id_absent (t ∷ rest) sid h =
    let other : sid ≢ t.id = h.0 in ground (arith, by_id_absent rest sid h.1)

by_id_mem :
    (segments : List Segment) {seg : Segment}
    → DistinctIds segments
    → Memᴰ seg segments
    → by_id segments seg.id ≡ some seg
unfolding by_id
by_id_mem [] d m = elim m [ ]
by_id_mem (t ∷ rest) {seg} d (Memᴰ.head e) = rw e (ground (arith, by_id_absent rest t.id d.0))
by_id_mem (t ∷ rest) {seg} d (Memᴰ.tail m) = ground (arith, by_id_mem rest {seg = seg} d.1 m)

-- A refused insight repeats a claim, one of the given ones: it is refused for that, and it cites a segment
-- on which a claim of its type and title was made.
pub Repeats : List Key → ValidatedInsight → Type 0
Repeats claims i =
    i.dropped ≡ true
    → (i.drop_reason ≡ some already_claimed)
      × ((sid : ℕ) × (Memᴰ sid i.attempted_segment_ids × Memᴰ (i.type, i.title, sid) claims))

-- So of all insights, each with the claims of those before it.
pub OnlyRepeats : List Key → List ValidatedInsight → Type 0
OnlyRepeats claims [] = Unit
OnlyRepeats claims (i ∷ rest) = Repeats claims i × OnlyRepeats (claims ++ insight_keys i) rest

module _ (segments : List Segment) (distinct : DistinctIds segments) where
  -- A check stops only at a claim of the set.
  abbrev OnlyClaimed : CandidateInsight → List Key → ℕ → Check → Type 0
  OnlyClaimed cand seen sid (passed seg) = Unit
  OnlyClaimed cand seen sid (stopped r) =
      (r.why ≡ already_claimed) × Memᴰ (cand.type, cand.title, sid) seen

  check_found-OnlyClaimed :
      (cand : CandidateInsight) (seen : List Key) (sid : ℕ) (seg : Segment) (c : Check)
      → check_found cand seen sid seg ≡ c
      → claimed_quote cand ≡ none
      → ((r : SpeakerRole) → required cand ≡ some r → seg.speaker_role ≡ r)
      → OnlyClaimed cand seen sid c
  unfolding check_found
  check_found-OnlyClaimed cand seen sid seg (passed s) e q h = tt
  check_found-OnlyClaimed cand seen sid seg (stopped r) e q h =
      elim (Option-cases (required cand)) [
        | inl free ↦ claimed (ground arith)
        | inr (role, needs) ↦
            let spoken : seg.speaker_role ≡ role = h role needs in
            claimed (ground (arith, same_role_refl role))
      ]
    where
      claimed :
          (r.why ≡ already_claimed) × (seen_before (cand.type, cand.title, sid) seen ≡ true)
          → OnlyClaimed cand seen sid (stopped r)
      claimed (why, found) = (why, mem-seen_before (cand.type, cand.title, sid) seen found)

  check-OnlyClaimed :
      (cand : CandidateInsight) (seen : List Key) (sid : ℕ) (k : Check)
      → check segments cand seen sid ≡ k
      → claimed_quote cand ≡ none
      → Cites segments cand sid
      → OnlyClaimed cand seen sid k
  unfolding check
  check-OnlyClaimed cand seen sid k e q c =
      let found : by_id segments sid ≡ some c.segment =
        subst (λ (n : ℕ). by_id segments n ≡ some c.segment) c.same_id
          (by_id_mem segments {seg = c.segment} distinct c.transcribed) in
      check_found-OnlyClaimed cand seen sid c.segment k (ground arith) q c.spoken_by

  -- One of the segments has a claim of the set.
  abbrev Claimed : CandidateInsight → List Key → List ℕ → Type 0
  Claimed cand seen sids = (sid : ℕ) × (Memᴰ sid sids × Memᴰ (cand.type, cand.title, sid) seen)

  abbrev WalkClaimed : CandidateInsight → List Key → List ℕ → Walked → Type 0
  WalkClaimed cand seen sids (backed ps) = Unit
  WalkClaimed cand seen sids (failed r) = (r.why ≡ already_claimed) × Claimed cand seen sids

  extend-WalkClaimed :
      (cand : CandidateInsight) (seen : List Key) (sid : ℕ) (sids : List ℕ) (c : Check) (w : Walked)
      → OnlyClaimed cand seen sid c
      → WalkClaimed cand seen sids w
      → WalkClaimed cand seen (sid ∷ sids) (extend sid c w)
  extend-WalkClaimed cand seen sid sids (stopped r) w (why, m) hw =
      (why, (sid, (Memᴰ.head refl, m)))
  extend-WalkClaimed cand seen sid sids (passed seg) (backed ps) hc hw = tt
  extend-WalkClaimed cand seen sid sids (passed seg) (failed r) hc (why, (k, (m, c))) =
      (why, (k, (Memᴰ.tail m, c)))

  walk-WalkClaimed :
      (cand : CandidateInsight) (seen : List Key) (sids : List ℕ)
      → claimed_quote cand ≡ none
      → All (Cites segments cand) sids
      → WalkClaimed cand seen sids (walk segments cand seen sids)
  unfolding walk
  walk-WalkClaimed cand seen [] q h = tt
  walk-WalkClaimed cand seen (sid ∷ sids) q h =
      extend-WalkClaimed cand seen sid sids (check segments cand seen sid)
        (walk segments cand seen sids)
        (check-OnlyClaimed cand seen sid (check segments cand seen sid) refl q h.0)
        (walk-WalkClaimed cand seen sids q h.1)

  conclude-Repeats :
      (threshold : ℕ) (seen : List Key) (cand : CandidateInsight) (w : Walked)
      → WalkClaimed cand seen cand.segment_ids w
      → Repeats seen (conclude threshold cand w).insight
  unfolding conclude ship unconfirmed_or_drop Repeats
  conclude-Repeats threshold seen cand (backed ps) h d = absurd (cc d)
  conclude-Repeats threshold seen cand (failed r) h d = (ap some h.0, h.1)

  factual-Repeats :
      (threshold : ℕ) (seen : List Key) (cand : CandidateInsight) (sids : List ℕ)
      → cand.segment_ids ≡ sids
      → sids ≢ []
      → claimed_quote cand ≡ none
      → All (Cites segments cand) sids
      → Repeats seen (judge_factual threshold segments seen cand sids).insight
  unfolding judge_factual
  factual-Repeats threshold seen cand [] e n q h = absurd (n refl)
  factual-Repeats threshold seen cand (sid ∷ sids) e n q h =
      conclude-Repeats threshold seen cand (walk segments cand seen (sid ∷ sids)) (
        subst (λ l. WalkClaimed cand seen l (walk segments cand seen (sid ∷ sids))) (sym e)
          (walk-WalkClaimed cand seen (sid ∷ sids) q h))

  judge_by-Repeats :
      (threshold : ℕ) (seen : List Key) (cand : CandidateInsight) (s : EvidenceStatus)
      → cand.evidence_status ≡ s
      → Grounded segments cand
      → Repeats seen (judge_by s threshold segments seen cand).insight
  unfolding judge_by ship Repeats
  judge_by-Repeats threshold seen cand EvidenceStatus.absence_based e g = λ d. absurd (cc d)
  judge_by-Repeats threshold seen cand EvidenceStatus.non_factual e g = λ d. absurd (cc d)
  judge_by-Repeats threshold seen cand EvidenceStatus.supported e g = elim g.honest [
    | inl (status, n) ↦
        factual-Repeats threshold seen cand cand.segment_ids refl n g.no_quote g.cites
    | inr (status, n) ↦ absurd (cc (status, e))
  ]
  judge_by-Repeats threshold seen cand EvidenceStatus.unconfirmed e g = elim g.honest [
    | inl (status, n) ↦
        factual-Repeats threshold seen cand cand.segment_ids refl n g.no_quote g.cites
    | inr (status, n) ↦ absurd (cc (status, e))
  ]

  validate_from-Repeats :
      (threshold : ℕ) (seen : List Key) (cands : List CandidateInsight)
      → All (Grounded segments) cands
      → OnlyRepeats seen (validate_from threshold segments seen cands).0
  unfolding validate_from OnlyRepeats judge
  validate_from-Repeats threshold seen [] h = tt
  validate_from-Repeats threshold seen (cand ∷ rest) h = (
    judge_by-Repeats threshold seen cand cand.evidence_status refl h.0,
    subst
        (λ keys.
          OnlyRepeats (seen ++ keys)
            (validate_from threshold segments (seen ++ (judge threshold segments seen cand).claims)
              rest).0)
        (judge_claims threshold segments seen cand).0
        (validate_from-Repeats threshold (seen ++ (judge threshold segments seen cand).claims) rest
          h.1),
  )

-- Every candidate that the extractors make of the transcript cites only segments of it, spoken by
-- the role that the candidate requires, and cites something exactly if it claims a fact.
pub candidates-Grounded :
    (views : List Segment) (axes : List (ℕ × EmotionAxes)) (items : List RecapActionItem)
    (tracked : List Term)
    → All (Grounded views) (candidates views axes items tracked)
unfolding candidates
candidates-Grounded views axes items tracked =
    let join =
      λ (xs ys : List CandidateInsight) (hx : All (Grounded views) xs)
          (hy : All (Grounded views) ys).
        All-append (Grounded views) xs ys hx hy in
    join _ _ (extract_customer_truth-Grounded views) (
      join _ _ (extract_sentiment-Grounded views axes) (
        join _ _ (extract_buying_intent-Grounded views) (
          join _ _ (extract_objections-Grounded views) (
            join _ _ (extract_commitments-Grounded views items) (
              join _ _ (extract_reality_checks-Grounded views) (
                join _ _ (extract_deal_killers-Grounded views _) (
                  join _ _ (extract_competitors-Grounded views tracked)
                    (extract_moments-Grounded views))))))))

-- Where no two segments share an id, the validator refuses of what the extractors propose only what repeats
-- a claim: an insight that it refuses cites a segment on which an earlier insight makes a claim of the
-- same type and title, and is refused for that reason and no other.
pub judged_refusals :
    (views : List Segment) (axes : List (ℕ × EmotionAxes)) (items : List RecapActionItem)
    (tracked : List Term) (threshold : ℕ)
    → DistinctIds views
    → OnlyRepeats [] (judged views axes items tracked threshold).0
unfolding judged validate_candidates
judged_refusals views axes items tracked threshold distinct =
    validate_from-Repeats views distinct threshold [] (candidates views axes items tracked)
      (candidates-Grounded views axes items tracked)
