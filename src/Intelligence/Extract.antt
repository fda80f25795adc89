-- ===== src/Intelligence/Extract.antt =====
-- app/intelligence/extract.py: the extractors that turn labelled segments into candidate insights.
-- This file has what they share; each group of extractors is a child.
pub mod Customer
pub mod Commitments
pub mod Objections
pub mod Deal
pub mod Grounded
use deal_truth_api.Prelude.{
  ℕ, Bool, Option, none, some, List, [], ◌∷◌, String, Text, codes, lookup, keep, leb, ltb, lower,
  contains, any, if◌then◌else◌,
}
use deal_truth_api.Core.Enums.{SpeakerRole, EvidenceStatus, InsightType, same_role}
use deal_truth_api.Intelligence.Domain.{Segment, CandidateInsight}

abbrev pub label_threshold : ℕ
label_threshold = 5500

abbrev or_zero : Option ℕ → ℕ
or_zero none = 0
or_zero (some n) = n

-- `_score`
unfoldable pub score : Segment → String → ℕ
score seg label = or_zero (lookup label seg.labels)

-- `score >= LABEL_THRESHOLD`
abbrev pub clears : ℕ → Bool
clears n = leb label_threshold n

unfoldable pub customer_segments : List Segment → List Segment
customer_segments = keep (λ (s : Segment). same_role s.speaker_role SpeakerRole.customer)

unfoldable pub seller_segments : List Segment → List Segment
seller_segments = keep (λ (s : Segment). same_role s.speaker_role SpeakerRole.seller)

-- The loop of `_best`: the first segment of the highest score above the one at hand.
unfoldable pub best_from : Option Segment × ℕ → List Segment → String → Option Segment × ℕ
best_from best [] label = best
best_from best (seg ∷ segs) label =
    best_from (if ltb best.1 (score seg label) then (some seg, score seg label) else best) segs
      label

unfoldable pub best : List Segment → String → Option Segment × ℕ
best segs label = best_from (none, 0) segs label

unfoldable pub max_label_from : Option Segment × ℕ → List Segment → List String → Option Segment × ℕ
max_label_from top segs [] = top
max_label_from top segs (label ∷ labels) =
    max_label_from (if ltb top.1 (best segs label).1 then best segs label else top) segs labels

-- `_max_label`
unfoldable pub max_label : List Segment → List String → Option Segment × ℕ
max_label segs labels = max_label_from (none, 0) segs labels

-- `any(token in text for token in tokens)`
unfoldable pub holds_any : List String → Text → Bool
holds_any tokens t = any (λ (token : String). contains (codes token) t) tokens

pub quantified : Option Segment × ℕ → Option Segment × ℕ
quantified (none, n) = (none, 0)
quantified (some seg, n) = (
  some seg,
  if holds_any ("hour" ∷ "hours" ∷ "$" ∷ "percent" ∷ "%" ∷ "week" ∷ "cost" ∷ []) (lower seg.text)
      then n
      else 0,
)

-- `_quantified_pain`
unfoldable pub quantified_pain : List Segment → Option Segment × ℕ
unfolding quantified
quantified_pain segs = quantified (best segs "pain point")

-- A candidate that cites one segment, with the defaults of `CandidateInsight`.
abbrev pub citing : InsightType → Text → Segment → ℕ → CandidateInsight
citing type title seg confidence = record {
  type = type;
  title = title;
  summary = seg.text;
  severity = none;
  confidence = confidence;
  evidence_status = EvidenceStatus.supported;
  segment_ids = seg.id ∷ [];
  payload = [];
  required_role = none;
  relationship = "supports";
}
