-- ===== src/Intelligence/Extract/Grounded/Customer.antt =====
-- app/intelligence/extract.py: what the candidates about the customer cite.
use deal_truth_api.Prelude.{
  ℕ, ◌≡◌, refl, false, Option, none, some, List, [], ◌∷◌, String, All, All-append, if_elim, lookup,
}
use deal_truth_api.Core.Enums.{SpeakerRole}
use deal_truth_api.Ml.Axes.{EmotionAxes, any_available, grouped, Grouped}
use deal_truth_api.Intelligence.Domain.{Segment}
use deal_truth_api.Evidence.{required, claimed_quote}
use deal_truth_api.Intelligence.Extract.{score, clears, customer_segments}
use deal_truth_api.Intelligence.Extract.Customer.{
  truth_of, truths_of, customer_truth_map, customer_truth_from, extract_customer_truth, axes_of,
  axes_payload, with_rollup, sentiment_of, sentiment_at, sentiment_from, extract_sentiment,
  dimension_hits, signal_of, signals_of, present_signal, absent_signal, extract_buying_intent,
}
use deal_truth_api.Intelligence.Extract.Grounded.{
  Grounded, Spoken, customer_segments-Spoken, role_Grounded, absent_Grounded, HitOf, best-HitOf,
  max_label-HitOf, quantified_pain-HitOf,
}

module _ (segments : List Segment) where
  abbrev ByCustomer : Segment → Type 0
  ByCustomer = Spoken segments SpeakerRole.customer

  truths_of-Grounded :
      (seg : Segment) (labels : List (String × String))
      → ByCustomer seg
      → All (Grounded segments) (truths_of seg labels)
  unfolding truths_of required claimed_quote
  truths_of-Grounded seg [] h = tt
  truths_of-Grounded seg ((label, category) ∷ more) h =
      if_elim (All (Grounded segments)) (clears (score seg label))
        (
          role_Grounded segments (truth_of seg (label, category)) seg SpeakerRole.customer h refl
              refl refl refl,
          truths_of-Grounded seg more h,
        )
        (truths_of-Grounded seg more h)

  truth_from-Grounded :
      (segs : List Segment)
      → All ByCustomer segs
      → All (Grounded segments) (customer_truth_from segs)
  unfolding customer_truth_from
  truth_from-Grounded [] h = tt
  truth_from-Grounded (seg ∷ segs) h =
      All-append (Grounded segments) (truths_of seg customer_truth_map) (customer_truth_from segs)
        (truths_of-Grounded seg customer_truth_map h.0) (truth_from-Grounded segs h.1)

  pub extract_customer_truth-Grounded : All (Grounded segments) (extract_customer_truth segments)
  unfolding extract_customer_truth
  extract_customer_truth-Grounded =
      truth_from-Grounded (customer_segments segments) (customer_segments-Spoken segments)

  rollup_quote :
      (seg : Segment) (axes : EmotionAxes) (g : Option Grouped)
      → lookup "quote" (with_rollup g (axes_payload seg axes)) ≡ none
  unfolding axes_payload with_rollup
  rollup_quote seg axes none = refl
  rollup_quote seg axes (some g) = refl

  sentiment_quote :
      (seg : Segment) (axes : EmotionAxes) → claimed_quote (sentiment_of seg axes) ≡ none
  unfolding claimed_quote sentiment_of
  sentiment_quote seg axes = rw (rollup_quote seg axes (grouped axes))

  sentiment_at-Grounded :
      (seg : Segment) (axes : Option EmotionAxes)
      → ByCustomer seg
      → All (Grounded segments) (sentiment_at seg axes)
  unfolding sentiment_at required claimed_quote
  sentiment_at-Grounded seg none h = tt
  sentiment_at-Grounded seg (some axes) h =
      if_elim (All (Grounded segments)) (any_available axes)
        (
          role_Grounded segments (sentiment_of seg axes) seg SpeakerRole.customer h refl refl refl
              (sentiment_quote seg axes),
          tt,
        )
        tt

  sentiment_from-Grounded :
      (axes : List (ℕ × EmotionAxes)) (segs : List Segment)
      → All ByCustomer segs
      → All (Grounded segments) (sentiment_from axes segs)
  unfolding sentiment_from
  sentiment_from-Grounded axes [] h = tt
  sentiment_from-Grounded axes (seg ∷ segs) h =
      All-append (Grounded segments) (sentiment_at seg (axes_of axes seg.id))
        (sentiment_from axes segs) (sentiment_at-Grounded seg (axes_of axes seg.id) h.0)
        (sentiment_from-Grounded axes segs h.1)

  pub extract_sentiment-Grounded :
      (axes : List (ℕ × EmotionAxes)) → All (Grounded segments) (extract_sentiment segments axes)
  unfolding extract_sentiment
  extract_sentiment-Grounded axes =
      sentiment_from-Grounded axes (customer_segments segments) (customer_segments-Spoken segments)

  signal_of-Grounded :
      (name : String) (hit : Option Segment × ℕ)
      → HitOf ByCustomer hit
      → Grounded segments (signal_of name hit.0 hit.1)
  unfolding signal_of required claimed_quote
  signal_of-Grounded name (none, n) h =
      absent_Grounded segments (absent_signal name (clears n) n) refl refl refl
  signal_of-Grounded name (some seg, n) h =
      if_elim (Grounded segments) (clears n)
        (role_Grounded segments (present_signal name seg n) seg SpeakerRole.customer h refl refl
          refl refl)
        (absent_Grounded segments (absent_signal name false n) refl refl refl)

  signals_of-Grounded :
      (hits : List (String × (Option Segment × ℕ)))
      → All (λ (d : String × (Option Segment × ℕ)). HitOf ByCustomer d.1) hits
      → All (Grounded segments) (signals_of hits)
  unfolding signals_of
  signals_of-Grounded [] h = tt
  signals_of-Grounded ((name, hit) ∷ hits) h =
      (signal_of-Grounded name hit h.0, signals_of-Grounded hits h.1)

  pub extract_buying_intent-Grounded : All (Grounded segments) (extract_buying_intent segments)
  unfolding extract_buying_intent dimension_hits
  extract_buying_intent-Grounded =
      let cust = customer_segments segments in
      let spoken = customer_segments-Spoken segments in
      let hit = λ (label : String). best-HitOf ByCustomer cust label spoken in
      signals_of-Grounded (dimension_hits cust) (
        hit "pain point",
        (
          quantified_pain-HitOf ByCustomer cust spoken,
          (
            hit "purchase timeline",
            (
              hit "economic buyer identified",
              (
                hit "decision maker identified",
                (
                  hit "next meeting commitment",
                  (
                    hit "competitor mention",
                    (
                      max_label-HitOf ByCustomer cust
                          ("security blocker" ∷ "budget blocker" ∷ "technical blocker" ∷ []) spoken,
                      tt,
                    ),
                  ),
                ),
              ),
            ),
          ),
        ),
      )
