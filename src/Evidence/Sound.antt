-- ===== src/Evidence/Sound.antt =====
-- What app/evidence/__init__.py checks of a candidate that ships, and what it leaves of a refused one.
use deal_truth_api.Prelude.{
  ℕ, ◌≡◌, refl, ◌≢◌, ◌⊎◌, inl, inr, ◌<◌, ◌≤◌, Forall₂, true, false, some, List, [], ◌∷◌, ◌++◌, map,
  Text, All, Memᴰ, Occurs, contains-Occurs, arith, ap, sym, ◌∙◌, Option-cases,
}
use deal_truth_api.Core.Enums.{EvidenceStatus, SpeakerRole, same_role→eq}
use deal_truth_api.Intelligence.Domain.{Segment, CandidateInsight, ValidatedInsight}
use deal_truth_api.Evidence.Keys.{Key, seen_before}
use deal_truth_api.Evidence.{
  by_id, required, claimed_quote, Check, passed, stopped, check, check_found, check_found, Walked,
  backed, failed, walk, extend, ship, judge, judge_by, conclude, judge_factual, validate_from,
  validate_candidates, unconfirmed_or_drop,
}

-- A segment of the transcript that a candidate may cite as `sid`.
pub record Backs (segments : List Segment) (cand : CandidateInsight) (sid : ℕ) (seg : Segment)
    : Type 0 where
  pub transcribed : Memᴰ seg segments
  pub same_id : seg.id ≡ sid
  pub spoken_by : (r : SpeakerRole) → required cand ≡ some r → seg.speaker_role ≡ r
  pub quoted : (q : Text) → claimed_quote cand ≡ some q → Occurs q seg.text

by_id_sound :
    (segments : List Segment) (sid : ℕ) {seg : Segment}
    → by_id segments sid ≡ some seg
    → Memᴰ seg segments × (seg.id ≡ sid)
unfolding by_id
by_id_sound [] sid h = cc
by_id_sound (s ∷ rest) sid {seg} h = elim (Option-cases (by_id rest sid)) [
  | inl e ↦ (Memᴰ.head (ground arith), ground arith)
  | inr (t, e) ↦ let (m, i) = by_id_sound rest sid {seg = seg} (ground arith) in (Memᴰ.tail m, i)
]

check_found_sound :
    (cand : CandidateInsight) (seen : List Key) (sid : ℕ) (found : Segment) {seg : Segment}
    → check_found cand seen sid found ≡ passed seg
    → (found ≡ seg)
      × ((r : SpeakerRole) → required cand ≡ some r → seg.speaker_role ≡ r)
      × ((q : Text) → claimed_quote cand ≡ some q → Occurs q seg.text)
      × (seen_before (cand.type, cand.title, sid) seen ≡ false)
unfolding check_found
check_found_sound cand seen sid found {seg} h = (
  ground arith,
  (λ r e. ground (arith, same_role→eq found.speaker_role r)),
  (λ q e. contains-Occurs q seg.text (ground arith)),
  ground arith,
)

-- What the inner loop has checked of each segment when it comes to its end.
pub record Proof (segments : List Segment) (cand : CandidateInsight) (seen : List Key)
    (p : ℕ × Segment) : Type 0 where
  pub backs : Backs segments cand p.0 p.1
  pub fresh : seen_before (cand.type, cand.title, p.0) seen ≡ false

module _ (segments : List Segment) (cand : CandidateInsight) (seen : List Key) where
  check_sound :
      (sid : ℕ) {seg : Segment}
      → check segments cand seen sid ≡ passed seg
      → Proof segments cand seen (sid, seg)
  unfolding check
  check_sound sid {seg} h = elim (Option-cases (by_id segments sid)) [
    | inl e ↦ absurd (ground arith)
    | inr (found, e) ↦
        let (same, spoken, quoted, fresh) =
          check_found_sound cand seen sid found {seg = seg} (ground arith) in
        let (here, i) = by_id_sound segments sid {seg = seg} (ground arith) in
        record {
          backs = record { transcribed = here; same_id = i; spoken_by = spoken; quoted = quoted };
          fresh = fresh;
        }
  ]

  abbrev pub Ends : List ℕ → Walked → Type 0
  Ends sids (failed r) = Unit
  Ends sids (backed ps) =
      (map (λ (p : ℕ × Segment). p.0) ps ≡ sids) × All (Proof segments cand seen) ps

  extend-Ends :
      (sid : ℕ) (sids : List ℕ) (c : Check) (w : Walked)
      → ((seg : Segment) → c ≡ passed seg → Proof segments cand seen (sid, seg))
      → Ends sids w
      → Ends (sid ∷ sids) (extend sid c w)
  extend-Ends sid sids (stopped r) w f h = tt
  extend-Ends sid sids (passed seg) (failed r) f h = tt
  extend-Ends sid sids (passed seg) (backed ps) f h =
      (ap (λ (l : List ℕ). sid ∷ l) h.0, (f seg refl, h.1))

  pub walk-Ends : (sids : List ℕ) → Ends sids (walk segments cand seen sids)
  unfolding walk
  walk-Ends [] = (refl, tt)
  walk-Ends (sid ∷ sids) =
      extend-Ends sid sids (check segments cand seen sid) (walk segments cand seen sids)
        (λ seg e. check_sound sid {seg = seg} e) (walk-Ends sids)

-- A refused candidate: nothing stands behind it, and what it tried is kept apart.
pub record IsRefused (cand : CandidateInsight) (i : ValidatedInsight) : Type 0 where
  pub dropped : i.dropped ≡ true
  pub status : i.evidence_status ≡ EvidenceStatus.unconfirmed
  pub no_segments : i.segment_ids ≡ []
  pub no_quotes : i.quotes ≡ []
  pub no_spans : i.audio_spans ≡ []
  pub attempted : i.attempted_segment_ids ≡ cand.segment_ids
  pub words : i.attempted_quote ≡ claimed_quote cand

-- A claim that ships with segments: every one is in the transcript and fits the claim, and the
-- quotes and the audio are those of the segments.
pub record IsProven (threshold : ℕ) (segments : List Segment) (seen : List Key)
    (cand : CandidateInsight) (i : ValidatedInsight) : Type 0 where
  pub shipped : i.dropped ≡ false
  pub cited : i.segment_ids ≡ cand.segment_ids
  pub some_cited : cand.segment_ids ≢ []
  pub proofs : List (ℕ × Segment)
  pub each : All (Proof segments cand seen) proofs
  pub ids : map (λ (p : ℕ × Segment). p.0) proofs ≡ cand.segment_ids
  pub quotes : i.quotes ≡ map (λ (p : ℕ × Segment). p.1.text) proofs
  pub audio : i.audio_spans ≡ map (λ (p : ℕ × Segment). (p.1.start_ms, p.1.end_ms)) proofs
  pub sure :
      (cand.confidence < threshold → i.evidence_status ≡ EvidenceStatus.unconfirmed)
      × (threshold ≤ cand.confidence → i.evidence_status ≡ cand.evidence_status)

-- A candidate that claims no fact of the transcript: it ships, and cites nothing.
pub record IsUncited (cand : CandidateInsight) (i : ValidatedInsight) : Type 0 where
  pub shipped : i.dropped ≡ false
  pub kind :
      (cand.evidence_status ≡ EvidenceStatus.absence_based)
      ⊎ (cand.evidence_status ≡ EvidenceStatus.non_factual)
  pub status : i.evidence_status ≡ cand.evidence_status
  pub no_segments : i.segment_ids ≡ []
  pub no_quotes : i.quotes ≡ []
  pub no_spans : i.audio_spans ≡ []

-- What the validator keeps is the candidate's claim, in the candidate's words.
pub record SameClaim (cand : CandidateInsight) (i : ValidatedInsight) : Type 0 where
  pub type : i.type ≡ cand.type
  pub title : i.title ≡ cand.title
  pub summary : i.summary ≡ cand.summary
  pub confidence : i.confidence ≡ cand.confidence

abbrev pub Judged : ℕ → List Segment → List Key → CandidateInsight → ValidatedInsight → Type 0
Judged threshold segments seen cand i =
    SameClaim cand i
    × (IsRefused cand i ⊎ IsUncited cand i ⊎ IsProven threshold segments seen cand i)

conclude-Judged :
    (threshold : ℕ) (segments : List Segment) (seen : List Key) (cand : CandidateInsight)
    (sids : List ℕ) (w : Walked)
    → cand.segment_ids ≡ sids
    → sids ≢ []
    → Ends segments cand seen sids w
    → Judged threshold segments seen cand (conclude threshold cand w).insight
unfolding conclude ship unconfirmed_or_drop
conclude-Judged threshold segments seen cand sids (failed r) e n h =
    (ground arith, inl (ground arith))
conclude-Judged threshold segments seen cand sids (backed ps) e n h = (
  ground arith,
  inr (
      inr (record {
        shipped = refl;
        cited = h.0 ∙ sym e;
        some_cited = λ z. n (sym e ∙ z);
        proofs = ps;
        each = h.1;
        ids = h.0 ∙ sym e;
        quotes = refl;
        audio = refl;
        sure = ground arith;
      })),
)

module _ (threshold : ℕ) (segments : List Segment) (seen : List Key) (cand : CandidateInsight) where
  factual-Judged :
      (sids : List ℕ)
      → cand.segment_ids ≡ sids
      → Judged threshold segments seen cand
          (judge_factual threshold segments seen cand sids).insight
  unfolding judge_factual unconfirmed_or_drop
  factual-Judged [] e = (ground arith, inl (ground arith))
  factual-Judged (sid ∷ sids) e =
      conclude-Judged threshold segments seen cand (sid ∷ sids)
        (walk segments cand seen (sid ∷ sids)) e (λ n. cc)
        (walk-Ends segments cand seen (sid ∷ sids))

  judge_by-Judged :
      (s : EvidenceStatus)
      → cand.evidence_status ≡ s
      → Judged threshold segments seen cand (judge_by s threshold segments seen cand).insight
  unfolding judge_by ship
  judge_by-Judged EvidenceStatus.absence_based e = (ground arith, inr (inl (ground arith)))
  judge_by-Judged EvidenceStatus.non_factual e = (ground arith, inr (inl (ground arith)))
  judge_by-Judged EvidenceStatus.supported e = factual-Judged cand.segment_ids refl
  judge_by-Judged EvidenceStatus.unconfirmed e = factual-Judged cand.segment_ids refl

  judge-Judged : Judged threshold segments seen cand (judge threshold segments seen cand).insight
  unfolding judge
  judge-Judged = judge_by-Judged cand.evidence_status refl

-- Some set of earlier claims, for which the candidate was judged so.
abbrev pub JudgedSo : ℕ → List Segment → CandidateInsight → ValidatedInsight → Type 0
JudgedSo threshold segments cand i = (seen : List Key) × Judged threshold segments seen cand i

validate_from-Judged :
    (threshold : ℕ) (segments : List Segment) (seen : List Key) (cands : List CandidateInsight)
    → Forall₂ (JudgedSo threshold segments) cands (validate_from threshold segments seen cands).0
unfolding validate_from
validate_from-Judged threshold segments seen [] = tt
validate_from-Judged threshold segments seen (cand ∷ rest) = (
  (seen, judge-Judged threshold segments seen cand),
  validate_from-Judged threshold segments (seen ++ (judge threshold segments seen cand).claims)
      rest,
)

-- No proof in the transcript, no claim in the report: one insight for each candidate, in order, each
-- with the candidate's own claim. It is refused, with no segment and no quote left on it; or it is
-- absence-based or non-factual and cites nothing; or it ships with all segments that it cites, at
-- least one, where each is in the transcript, is spoken by the required role and holds the claimed
-- quote, the quotes and audio spans are those of the segments, and the status is UNCONFIRMED if the
-- confidence is under the threshold and the candidate's otherwise.
pub validate_candidates-Judged :
    (cands : List CandidateInsight) (segments : List Segment) (threshold : ℕ)
    → Forall₂ (JudgedSo threshold segments) cands (validate_candidates cands segments threshold).0
unfolding validate_candidates
validate_candidates-Judged cands segments threshold =
    validate_from-Judged threshold segments [] cands
