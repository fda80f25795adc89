-- ===== src/Intelligence/Extract/Grounded.antt =====
-- app/intelligence/extract.py: what a candidate has to cite.
pub mod Customer
pub mod Commitments
pub mod Deal
pub mod Reality
use deal_truth_api.Prelude.{
  ℕ, ◌≡◌, refl, sym, subst, ◌≢◌, ◌⊎◌, inl, inr, Option, none, some, List, [], ◌∷◌, String, All,
  All-map, All-mem_self, keep_passed, Memᴰ, if_elim, ltb, if◌then◌else◌,
}
use deal_truth_api.Core.Enums.{SpeakerRole, EvidenceStatus, same_role, same_role→eq}
use deal_truth_api.Intelligence.Domain.{Segment, CandidateInsight}
use deal_truth_api.Evidence.{required, claimed_quote}
use deal_truth_api.Intelligence.Extract.{
  score, customer_segments, seller_segments, best, best_from, max_label, max_label_from, quantified,
  quantified_pain,
}

module _ (segments : List Segment) where
  -- A segment of the transcript that the candidate cites as `sid`, spoken by the role it requires.
  pub record Cites (cand : CandidateInsight) (sid : ℕ) : Type 0 where
    pub segment : Segment
    pub transcribed : Memᴰ segment segments
    pub same_id : segment.id ≡ sid
    pub spoken_by : (r : SpeakerRole) → required cand ≡ some r → segment.speaker_role ≡ r

  -- A candidate is grounded: all that it cites is in the transcript, it quotes no words of its own,
  -- and it cites something exactly if it claims a fact.
  pub record Grounded (cand : CandidateInsight) : Type 0 where
    pub cites : All (Cites cand) cand.segment_ids
    pub no_quote : claimed_quote cand ≡ none
    pub honest :
        (cand.evidence_status ≡ EvidenceStatus.supported × (cand.segment_ids ≢ []))
        ⊎ (cand.evidence_status ≡ EvidenceStatus.absence_based × (cand.segment_ids ≡ []))

  -- A segment of the transcript that the role spoke.
  abbrev pub Spoken : SpeakerRole → Segment → Type 0
  Spoken role s = Memᴰ s segments × (s.speaker_role ≡ role)

  pub customer_segments-Spoken : All (Spoken SpeakerRole.customer) (customer_segments segments)
  unfolding customer_segments
  customer_segments-Spoken =
      All-map (λ s h. (h.0, same_role→eq s.speaker_role SpeakerRole.customer h.1))
        (customer_segments segments)
        (keep_passed (λ s. Memᴰ s segments)
          (λ (s : Segment). same_role s.speaker_role SpeakerRole.customer) segments
          (All-mem_self segments))

  pub seller_segments-Spoken : All (Spoken SpeakerRole.seller) (seller_segments segments)
  unfolding seller_segments
  seller_segments-Spoken =
      All-map (λ s h. (h.0, same_role→eq s.speaker_role SpeakerRole.seller h.1))
        (seller_segments segments)
        (keep_passed (λ s. Memᴰ s segments)
          (λ (s : Segment). same_role s.speaker_role SpeakerRole.seller) segments
          (All-mem_self segments))

  -- A candidate that cites one segment, whose role is the one that it requires.
  pub role_Grounded :
      (cand : CandidateInsight) (seg : Segment) (role : SpeakerRole)
      → Spoken role seg
      → cand.segment_ids ≡ seg.id ∷ []
      → cand.evidence_status ≡ EvidenceStatus.supported
      → required cand ≡ some role
      → claimed_quote cand ≡ none
      → Grounded cand
  role_Grounded cand seg role m ids status needs quote = record {
    cites = subst (All (Cites cand)) (sym ids) (
      record {
        segment = seg;
        transcribed = m.0;
        same_id = refl;
        spoken_by = λ r e. cc (m.1, needs);
      },
      tt,
    );
    no_quote = quote;
    honest = inl (status, λ e. cc);
  }

  -- A candidate that cites one segment and requires no role.
  pub any_Grounded :
      (cand : CandidateInsight) (seg : Segment)
      → Memᴰ seg segments
      → cand.segment_ids ≡ seg.id ∷ []
      → cand.evidence_status ≡ EvidenceStatus.supported
      → required cand ≡ none
      → claimed_quote cand ≡ none
      → Grounded cand
  any_Grounded cand seg m ids status needs quote = record {
    cites =
        subst (All (Cites cand)) (sym ids)
          (record { segment = seg; transcribed = m; same_id = refl; spoken_by = λ r e. cc }, tt);
    no_quote = quote;
    honest = inl (status, λ e. cc);
  }

  pub absent_Grounded :
      (cand : CandidateInsight)
      → cand.segment_ids ≡ []
      → cand.evidence_status ≡ EvidenceStatus.absence_based
      → claimed_quote cand ≡ none
      → Grounded cand
  absent_Grounded cand ids status quote = record {
    cites = subst (All (Cites cand)) (sym ids) tt;
    no_quote = quote;
    honest = inr (status, ids);
  }

-- A hit of `best`, if there is one, has the property.
abbrev pub HitOf : (Segment → Type 0) → Option Segment × ℕ → Type 0
HitOf P (none, n) = Unit
HitOf P (some s, n) = P s

module _ (P : Segment → Type 0) where
  best_from-HitOf :
      (top : Option Segment × ℕ) (segs : List Segment) (label : String)
      → HitOf P top
      → All P segs
      → HitOf P (best_from top segs label)
  unfolding best_from
  best_from-HitOf top [] label t h = t
  best_from-HitOf top (seg ∷ segs) label t h =
      best_from-HitOf (if ltb top.1 (score seg label) then (some seg, score seg label) else top)
        segs label (if_elim (HitOf P) (ltb top.1 (score seg label)) h.0 t) h.1

  pub best-HitOf : (segs : List Segment) (label : String) → All P segs → HitOf P (best segs label)
  unfolding best
  best-HitOf segs label h = best_from-HitOf (none, 0) segs label tt h

  max_label_from-HitOf :
      (top : Option Segment × ℕ) (segs : List Segment) (labels : List String)
      → HitOf P top
      → All P segs
      → HitOf P (max_label_from top segs labels)
  unfolding max_label_from
  max_label_from-HitOf top segs [] t h = t
  max_label_from-HitOf top segs (label ∷ labels) t h =
      max_label_from-HitOf (if ltb top.1 (best segs label).1 then best segs label else top) segs
        labels (if_elim (HitOf P) (ltb top.1 (best segs label).1) (best-HitOf segs label h) t) h

  pub max_label-HitOf :
      (segs : List Segment) (labels : List String) → All P segs → HitOf P (max_label segs labels)
  unfolding max_label
  max_label-HitOf segs labels h = max_label_from-HitOf (none, 0) segs labels tt h

  quantified-HitOf : (hit : Option Segment × ℕ) → HitOf P hit → HitOf P (quantified hit)
  unfolding quantified
  quantified-HitOf (none, n) h = tt
  quantified-HitOf (some s, n) h = h

  pub quantified_pain-HitOf : (segs : List Segment) → All P segs → HitOf P (quantified_pain segs)
  unfolding quantified_pain
  quantified_pain-HitOf segs h =
      quantified-HitOf (best segs "pain point") (best-HitOf segs "pain point" h)
