-- ===== src/Intelligence/Extract/Grounded/Deal.antt =====
-- app/intelligence/extract.py: what objections, coaching, competitors and moments cite.
use deal_truth_api.Prelude.{
  ℕ, refl, Option, none, some, List, [], ◌∷◌, String, Text, lookup, All, All-append, All-mem_self,
  Memᴰ, if_elim, lower, codes, max,
}
use deal_truth_api.Core.Enums.{SpeakerRole}
use deal_truth_api.Intelligence.Domain.{Segment}
use deal_truth_api.Evidence.{required, claimed_quote}
use deal_truth_api.Intelligence.Extract.{score, clears, customer_segments}
use deal_truth_api.Intelligence.Extract.Objections.{
  objection_of, coaching_of, coached, objections_of, objections_from, objection_labels,
  coaching_playbook, extract_objections, Term, mentioned, competitor_of, competitor_at,
  competitors_from, extract_competitors, moment_of, moments_of, moment_kinds, extract_moments,
}
use deal_truth_api.Intelligence.Extract.Grounded.{
  Grounded, Spoken, customer_segments-Spoken, role_Grounded, any_Grounded,
}

module _ (segments : List Segment) where
  abbrev ByCustomer : Segment → Type 0
  ByCustomer = Spoken segments SpeakerRole.customer

  coached-Grounded :
      (seg : Segment) (kind : String) (n : ℕ) (advice : Option String)
      → ByCustomer seg
      → All (Grounded segments) (coached seg kind n advice)
  unfolding coached required claimed_quote
  coached-Grounded seg kind n none h = tt
  coached-Grounded seg kind n (some advice) h = (
    role_Grounded segments (coaching_of seg kind n advice) seg SpeakerRole.customer h refl refl refl
        refl,
    tt,
  )

  objections_of-Grounded :
      (seg : Segment) (labels : List (String × String))
      → ByCustomer seg
      → All (Grounded segments) (objections_of seg labels)
  unfolding objections_of required claimed_quote
  objections_of-Grounded seg [] h = tt
  objections_of-Grounded seg ((label, kind) ∷ more) h =
      let n = score seg label in
      let rest = objections_of-Grounded seg more h in
      if_elim (All (Grounded segments)) (clears n)
        (
          role_Grounded segments (objection_of seg kind n) seg SpeakerRole.customer h refl refl refl
              refl,
          All-append (Grounded segments) (coached seg kind n (lookup kind coaching_playbook))
              (objections_of seg more)
              (coached-Grounded seg kind n (lookup kind coaching_playbook) h) rest,
        )
        rest

  objections_from-Grounded :
      (segs : List Segment) → All ByCustomer segs → All (Grounded segments) (objections_from segs)
  unfolding objections_from
  objections_from-Grounded [] h = tt
  objections_from-Grounded (seg ∷ segs) h =
      All-append (Grounded segments) (objections_of seg objection_labels) (objections_from segs)
        (objections_of-Grounded seg objection_labels h.0) (objections_from-Grounded segs h.1)

  pub extract_objections-Grounded : All (Grounded segments) (extract_objections segments)
  unfolding extract_objections
  extract_objections-Grounded =
      objections_from-Grounded (customer_segments segments) (customer_segments-Spoken segments)

  competitor_at-Grounded :
      (seg : Segment) (names : List Text)
      → ByCustomer seg
      → All (Grounded segments) (competitor_at seg names)
  unfolding competitor_at required claimed_quote
  competitor_at-Grounded seg [] h =
      if_elim (All (Grounded segments)) (clears (score seg "competitor mention"))
        (
          role_Grounded segments
              (competitor_of seg (codes "unnamed competitor") (score seg "competitor mention")) seg
              SpeakerRole.customer h refl refl refl refl,
          tt,
        )
        tt
  competitor_at-Grounded seg (name ∷ names) h = (
    role_Grounded segments (competitor_of seg name (max (score seg "competitor mention") 7000)) seg
        SpeakerRole.customer h refl refl refl refl,
    tt,
  )

  competitors_from-Grounded :
      (tracked : List Term) (segs : List Segment)
      → All ByCustomer segs
      → All (Grounded segments) (competitors_from tracked segs)
  unfolding competitors_from
  competitors_from-Grounded tracked [] h = tt
  competitors_from-Grounded tracked (seg ∷ segs) h =
      All-append (Grounded segments) (competitor_at seg (mentioned (lower seg.text) tracked))
        (competitors_from tracked segs)
        (competitor_at-Grounded seg (mentioned (lower seg.text) tracked) h.0)
        (competitors_from-Grounded tracked segs h.1)

  pub extract_competitors-Grounded :
      (tracked : List Term) → All (Grounded segments) (extract_competitors segments tracked)
  unfolding extract_competitors
  extract_competitors-Grounded tracked =
      competitors_from-Grounded tracked (customer_segments segments)
        (customer_segments-Spoken segments)

  moments_of-Grounded :
      (seg : Segment) (kinds : List (String × String))
      → Memᴰ seg segments
      → All (Grounded segments) (moments_of seg kinds)
  unfolding moments_of required claimed_quote
  moments_of-Grounded seg [] m = tt
  moments_of-Grounded seg ((label, kind) ∷ more) m =
      let rest = moments_of-Grounded seg more m in
      if_elim (All (Grounded segments)) (clears (score seg label))
        (
          any_Grounded segments (moment_of seg kind (score seg label)) seg m refl refl refl refl,
          rest,
        )
        rest

  moments_from-Grounded :
      (segs : List Segment)
      → All (λ (s : Segment). Memᴰ s segments) segs
      → All (Grounded segments) (extract_moments segs)
  unfolding extract_moments
  moments_from-Grounded [] h = tt
  moments_from-Grounded (seg ∷ segs) h =
      All-append (Grounded segments) (moments_of seg moment_kinds) (extract_moments segs)
        (moments_of-Grounded seg moment_kinds h.0) (moments_from-Grounded segs h.1)

  pub extract_moments-Grounded : All (Grounded segments) (extract_moments segments)
  extract_moments-Grounded = moments_from-Grounded segments (All-mem_self segments)
