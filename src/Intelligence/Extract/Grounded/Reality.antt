-- ===== src/Intelligence/Extract/Grounded/Reality.antt =====
-- app/intelligence/extract.py: what reality checks and deal risks cite.
use deal_truth_api.Prelude.{
  ℕ, refl, Bool, true, false, not, Option, none, some, List, [], ◌∷◌, String, All, All-map,
  All-append, Memᴰ, if_elim, inl, first, leb, if◌then◌else◌,
}
use deal_truth_api.Core.Enums.{SpeakerRole}
use deal_truth_api.Intelligence.Domain.{Segment, CandidateInsight}
use deal_truth_api.Evidence.{required, claimed_quote}
use deal_truth_api.Intelligence.Extract.{customer_segments, seller_segments, best, max_label}
use deal_truth_api.Intelligence.Extract.Deal.{
  reality, or_else, head_of, blockers, meeting_claim, budget_claim, weak_answer, overstated,
  no_commitment, versus_competitor, budget_mismatch, checks_of, extract_reality_checks, risk_at,
  risks_of, absence, absence_if, present_from, absences_of, extract_deal_killers,
}
use deal_truth_api.Intelligence.Extract.Grounded.{
  Grounded, Spoken, customer_segments-Spoken, seller_segments-Spoken, role_Grounded, any_Grounded,
  absent_Grounded, HitOf, best-HitOf, max_label-HitOf,
}

module _ (segments : List Segment) where
  abbrev ByCustomer : Segment → Type 0
  ByCustomer = Spoken segments SpeakerRole.customer

  -- A segment of the transcript, if there is one.
  abbrev Found : Option Segment → Type 0
  Found none = Unit
  Found (some s) = Memᴰ s segments

  reality-Grounded :
      (code title : String) (seller customer : Option Segment) (severity : String)
      → Found seller
      → Found customer
      → All (Grounded segments) (reality code title seller customer severity)
  unfolding reality required claimed_quote
  reality-Grounded code title seller none severity s c = tt
  reality-Grounded code title none (some cust) severity s c =
      (any_Grounded segments _ cust c refl refl refl refl, tt)
  reality-Grounded code title (some sell) (some cust) severity s c = (
    record {
      cites = (
        record { segment = sell; transcribed = s; same_id = refl; spoken_by = λ r e. cc },
        (record { segment = cust; transcribed = c; same_id = refl; spoken_by = λ r e. cc }, tt),
      );
      no_quote = refl;
      honest = inl (refl, λ e. cc);
    },
    tt,
  )

  first-Found :
      (p : Segment → Bool) (segs : List Segment)
      → All (λ (s : Segment). Memᴰ s segments) segs
      → Found (first p segs)
  first-Found p [] h = tt
  first-Found p (s ∷ segs) h = if_elim Found (p s) h.0 (first-Found p segs h.1)

  HitOf-Found :
      (role : SpeakerRole) (hit : Option Segment × ℕ)
      → HitOf (Spoken segments role) hit
      → Found hit.0
  HitOf-Found role (none, n) h = tt
  HitOf-Found role (some s, n) h = h.0

  if-All :
      (b : Bool) (cands : List CandidateInsight)
      → All (Grounded segments) cands
      → All (Grounded segments) (if b then cands else [])
  if-All true cands h = h
  if-All false cands h = tt

  or_else-Found : (a b : Option Segment) → Found a → Found b → Found (or_else a b)
  or_else-Found none b fa fb = fb
  or_else-Found (some s) b fa fb = fa

  head_of-Found :
      (segs : List Segment) → All (λ (s : Segment). Memᴰ s segments) segs → Found (head_of segs)
  unfolding head_of
  head_of-Found [] h = tt
  head_of-Found (s ∷ segs) h = h.0

  -- What both speakers said is in the transcript.
  module _ (seller customer : List Segment) (s : All (Spoken segments SpeakerRole.seller) seller)
      (c : All (Spoken segments SpeakerRole.customer) customer) where
    seller_best : (label : String) → Found (best seller label).0
    seller_best label =
        HitOf-Found SpeakerRole.seller (best seller label)
          (best-HitOf (Spoken segments SpeakerRole.seller) seller label s)

    customer_best : (label : String) → Found (best customer label).0
    customer_best label =
        HitOf-Found SpeakerRole.customer (best customer label)
          (best-HitOf ByCustomer customer label c)

    customer_blocker : Found (max_label customer blockers).0
    customer_blocker =
        HitOf-Found SpeakerRole.customer (max_label customer blockers)
          (max_label-HitOf ByCustomer customer blockers c)

    weak_answer-Found : Found (weak_answer customer)
    unfolding weak_answer
    weak_answer-Found =
        or_else-Found _ _ (first-Found _ customer heard) (head_of-Found customer heard)
      where
        heard : All (λ (t : Segment). Memᴰ t segments) customer
        heard = All-map (λ t h. h.0) customer c

    no_commitment-Grounded :
        (claim : Option Segment)
        → Found claim
        → All (Grounded segments) (no_commitment claim customer)
    unfolding no_commitment
    no_commitment-Grounded none f = tt
    no_commitment-Grounded (some claim) f = search (if-All, reality-Grounded, weak_answer-Found)

    budget_mismatch-Grounded :
        (claim : Option Segment)
        → Found claim
        → All (Grounded segments) (budget_mismatch claim customer)
    unfolding budget_mismatch
    budget_mismatch-Grounded none f = tt
    budget_mismatch-Grounded (some claim) f = search (if-All, reality-Grounded, customer_best)

    overstated-Grounded : All (Grounded segments) (overstated seller customer)
    unfolding overstated
    overstated-Grounded = search (if-All, reality-Grounded, seller_best, customer_blocker)

    versus_competitor-Grounded : All (Grounded segments) (versus_competitor seller customer)
    unfolding versus_competitor
    versus_competitor-Grounded = search (if-All, reality-Grounded, seller_best, customer_best)

    checks_of-Grounded : All (Grounded segments) (checks_of seller customer)
    unfolding checks_of meeting_claim budget_claim
    checks_of-Grounded =
        let heard = All-map (λ t h. h.0) seller s in
        search (
          All-append, overstated-Grounded, no_commitment-Grounded, versus_competitor-Grounded,
          budget_mismatch-Grounded, first-Found, heard,
        )

    risk_at-Grounded :
        (bar : ℕ) (title kind : String) (hit : Option Segment × ℕ)
        → HitOf ByCustomer hit
        → All (Grounded segments) (risk_at bar title kind hit)
    unfolding risk_at required claimed_quote
    risk_at-Grounded bar title kind (none, n) h = tt
    risk_at-Grounded bar title kind (some seg, n) h =
        if-All (leb bar n) _
          (role_Grounded segments _ seg SpeakerRole.customer h refl refl refl refl, tt)

    risks_of-Grounded : All (Grounded segments) (risks_of customer)
    unfolding risks_of
    risks_of-Grounded =
        let hit = λ (label : String). best-HitOf ByCustomer customer label c in
        search (All-append, risk_at-Grounded, hit) depth 12

  pub extract_reality_checks-Grounded : All (Grounded segments) (extract_reality_checks segments)
  unfolding extract_reality_checks
  extract_reality_checks-Grounded =
      checks_of-Grounded (seller_segments segments) (customer_segments segments)
        (seller_segments-Spoken segments) (customer_segments-Spoken segments)

  absence_if-Grounded :
      (intent : List CandidateInsight) (dim title kind : String)
      → All (Grounded segments) (absence_if intent dim title kind)
  unfolding absence_if claimed_quote
  absence_if-Grounded intent dim title kind =
      if-All (not (present_from false dim intent)) (absence title kind ∷ [])
        (absent_Grounded segments (absence title kind) refl refl refl, tt)

  pub extract_deal_killers-Grounded :
      (intent : List CandidateInsight)
      → All (Grounded segments) (extract_deal_killers segments intent)
  unfolding extract_deal_killers absences_of
  extract_deal_killers-Grounded intent =
      All-append (Grounded segments) (risks_of (customer_segments segments)) _
        (risks_of-Grounded (seller_segments segments) (customer_segments segments)
          (seller_segments-Spoken segments) (customer_segments-Spoken segments))
        (search (All-append, absence_if-Grounded))
