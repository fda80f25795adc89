-- ===== src/Intelligence/Extract/Objections.antt =====
-- app/intelligence/extract.py: `extract_objections` with its coaching, `extract_competitors` and
-- `extract_moments`.
use deal_truth_api.Prelude.{
  ℕ, true, Option, none, some, List, [], ◌∷◌, ◌++◌, String, Text, Dict, codes, lookup, spaced,
  title, lower, contains, any, max, leb, if◌then◌else◌,
}
use deal_truth_api.Core.Enums.{SpeakerRole, InsightType}
use deal_truth_api.Intelligence.Domain.{Segment, CandidateInsight, Value}
use deal_truth_api.Intelligence.Extract.{score, clears, customer_segments, citing}

-- `OBJECTION_LABELS`
abbrev pub objection_labels : List (String × String)
objection_labels =
    ("pricing objection", "pricing")
    ∷ ("security blocker", "security")
    ∷ ("technical blocker", "technical")
    ∷ ("budget blocker", "budget")
    ∷ ("purchase timeline", "timing")
    ∷ ("integration requirement", "integration")
    ∷ ("competitor mention", "competition")
    ∷ []

-- `COACHING_PLAYBOOK`
abbrev pub coaching_playbook : Dict String
coaching_playbook =
    (
      "pricing",
      "If quantified pain is available, reframe price against the cost of the current workflow. Do not invent company-specific ROI numbers.",
    )
    ∷ (
      "security",
      "Identify the security owner and the required documents (for example SOC2). Do not invent policy answers.",
    )
    ∷ (
      "budget",
      "Confirm budget process and economic buyer. Do not claim approval that was not stated.",
    )
    ∷ (
      "technical",
      "List the technical questions to resolve on the next call. Do not promise unsupported capabilities.",
    )
    ∷ ("timing", "Ask for a concrete purchase or evaluation deadline. Do not invent a timeline.")
    ∷ (
      "integration",
      "Confirm the systems named on the call and the owner of the integration review.",
    )
    ∷ (
      "competition",
      "Ask how they will compare vendors and which capabilities matter. Do not disparage competitors.",
    )
    ∷ []

unfoldable pub objection_of : Segment → String → ℕ → CandidateInsight
objection_of seg kind n =
    let c = citing InsightType.objection (title (codes kind) ++ codes " objection") seg n in
    record c {
      severity = some (if leb 8000 n then "high" else "medium");
      required_role = some SpeakerRole.customer;
      payload = ("kind", Value.text (codes kind)) ∷ [];
    }

unfoldable pub coaching_of : Segment → String → ℕ → String → CandidateInsight
coaching_of seg kind n advice =
    let c =
      citing InsightType.coaching (codes "Handle " ++ (codes kind ++ codes " objection")) seg n in
    record c {
      summary = codes advice;
      required_role = some SpeakerRole.customer;
      payload = ("kind", Value.text (codes kind)) ∷ ("playbook", Value.flag true) ∷ [];
    }

unfoldable pub coached : Segment → String → ℕ → Option String → List CandidateInsight
unfolding coaching_of
coached seg kind n none = []
coached seg kind n (some advice) = coaching_of seg kind n advice ∷ []

unfoldable pub objections_of : Segment → List (String × String) → List CandidateInsight
unfolding objection_of coached
objections_of seg [] = []
objections_of seg ((label, kind) ∷ more) =
    if clears (score seg label)
    then objection_of seg kind (score seg label)
      ∷ (coached seg kind (score seg label) (lookup kind coaching_playbook)
          ++ objections_of seg more)
    else objections_of seg more

unfoldable pub objections_from : List Segment → List CandidateInsight
unfolding objections_of
objections_from [] = []
objections_from (seg ∷ segs) = objections_of seg objection_labels ++ objections_from segs

unfoldable pub extract_objections : List Segment → List CandidateInsight
unfolding objections_from
extract_objections segments = objections_from (customer_segments segments)

-- `(name, aliases)` of a tracked term.
abbrev pub Term : Type 0
Term = Text × List Text

-- The names of the tracked terms that the text mentions.
unfoldable pub mentioned : Text → List Term → List Text
mentioned hay [] = []
mentioned hay ((name, aliases) ∷ rest) =
    if any (λ (needle : Text). contains (lower needle) hay) (name ∷ aliases)
    then name ∷ mentioned hay rest
    else mentioned hay rest

unfoldable pub competitor_of : Segment → Text → ℕ → CandidateInsight
competitor_of seg name n =
    let c = citing InsightType.competitor name seg n in
    record c {
      required_role = some SpeakerRole.customer;
      payload =
          ("competitor", Value.text name)
          ∷ (
            "position",
            Value.text (
                if clears (score seg "competitor preference")
                then codes "preference"
                else codes "evaluating"),
          )
          ∷ ("context", Value.text seg.text)
          ∷ [];
    }

unfoldable pub competitor_at : Segment → List Text → List CandidateInsight
unfolding competitor_of
competitor_at seg [] =
    if clears (score seg "competitor mention")
    then competitor_of seg (codes "unnamed competitor") (score seg "competitor mention") ∷ []
    else []
competitor_at seg (name ∷ names) =
    competitor_of seg name (max (score seg "competitor mention") 7000) ∷ []

unfoldable pub competitors_from : List Term → List Segment → List CandidateInsight
unfolding competitor_at
competitors_from tracked [] = []
competitors_from tracked (seg ∷ segs) =
    competitor_at seg (mentioned (lower seg.text) tracked) ++ competitors_from tracked segs

unfoldable pub extract_competitors : List Segment → List Term → List CandidateInsight
unfolding competitors_from
extract_competitors segments tracked = competitors_from tracked (customer_segments segments)

-- `MOMENT_KINDS`
abbrev pub moment_kinds : List (String × String)
moment_kinds =
    ("pain point", "pain")
    ∷ ("pricing objection", "pricing")
    ∷ ("competitor mention", "competitor")
    ∷ ("security blocker", "security")
    ∷ ("positive buying signal", "buying_signal")
    ∷ ("customer commitment", "commitment")
    ∷ ("seller commitment", "next_step")
    ∷ ("next meeting commitment", "next_step")
    ∷ ("pricing objection", "objection")
    ∷ []

unfoldable pub moment_of : Segment → String → ℕ → CandidateInsight
moment_of seg kind n =
    let c = citing InsightType.call_moment (title (spaced (codes kind))) seg n in
    record c {
      payload =
          ("kind", Value.text (codes kind)) ∷ ("timestamp_ms", Value.number seg.start_ms) ∷ [];
    }

unfoldable pub moments_of : Segment → List (String × String) → List CandidateInsight
unfolding moment_of
moments_of seg [] = []
moments_of seg ((label, kind) ∷ more) =
    if clears (score seg label)
    then moment_of seg kind (score seg label) ∷ moments_of seg more
    else moments_of seg more

unfoldable pub extract_moments : List Segment → List CandidateInsight
unfolding moments_of
extract_moments [] = []
extract_moments (seg ∷ segs) = moments_of seg moment_kinds ++ extract_moments segs
