-- ===== src/Pipeline/Persist/Versions.antt =====
-- app/pipeline/persist.py: the versions of the analysis runs, and what a run stores.
use mathlib.Core.List.{Permᴰ}
use mathlib.Core.List.Permᴰ
use deal_truth_api.Prelude.{
  ℕ, ◌≡◌, refl, ◌≢◌, ◌<◌, ◌+◌, true, false, not, Bool, Bool-cases, inl, inr, List, [], ◌∷◌, ◌++◌,
  All, All-append, All-map, Pairwise, keep, arith, keep_passed,
}
use deal_truth_api.Intelligence.Domain.{ValidatedInsight}
use deal_truth_api.Pipeline.Session.{AnalysisRun, Session, modify}
use deal_truth_api.Pipeline.Persist.{max_version, next_run_version, run_of, persist_insights}

max_version_above :
    (runs : List AnalysisRun) (n : ℕ)
    → max_version runs < n
    → All (λ (r : AnalysisRun). r.version < n) runs
unfolding max_version
max_version_above [] n h = tt
max_version_above (r ∷ runs) n h = (omega arith, max_version_above runs n (omega arith))

pub next_run_version_above :
    (runs : List AnalysisRun) → All (λ (r : AnalysisRun). r.version < next_run_version runs) runs
unfolding next_run_version
next_run_version_above [] = tt
next_run_version_above (r ∷ runs) =
    max_version_above (r ∷ runs) (max_version (r ∷ runs) + 1) (omega arith)

-- No two runs have one version (`uq_analysis_runs_call_version`).
abbrev pub DistinctVersions : List AnalysisRun → Type 0
DistinctVersions = Pairwise (λ (r q : AnalysisRun). r.version ≢ q.version)

Pairwise-snoc :
    (runs : List AnalysisRun) (q : AnalysisRun)
    → DistinctVersions runs
    → All (λ (r : AnalysisRun). r.version < q.version) runs
    → DistinctVersions (runs ++ q ∷ [])
Pairwise-snoc [] q d h = (tt, tt)
Pairwise-snoc (r ∷ runs) q d h = (
  All-append (λ (p : AnalysisRun). r.version ≢ p.version) runs (q ∷ []) d.0
      ((let below : r.version < q.version = h.0 in ground arith), tt),
  Pairwise-snoc runs q d.1 h.1,
)

-- Those that fail a test and those that pass it are all.
parted :
    (test : ValidatedInsight → Bool) (insights : List ValidatedInsight)
    → Permᴰ (keep (λ i. not (test i)) insights ++ keep test insights) insights
parted test [] = Permᴰ.nil
parted test (i ∷ rest) = elim (Bool-cases (test i)) [
  | inl e ↦ rw e (
      Permᴰ.trans (Permᴰ.middle i (keep (λ j. not (test j)) rest) (keep test rest))
        (Permᴰ.cons refl (parted test rest)))
  | inr e ↦ rw e (Permᴰ.cons refl (parted test rest))
]

-- What `persist_insights` adds: a run of a version above all that there are, with what ships, and
-- with what is refused among its refused claims; the two together are all insights.
pub record Added (insights : List ValidatedInsight) (before after : List AnalysisRun) : Type 0 where
  pub run : AnalysisRun
  pub appended : after ≡ before ++ run ∷ []
  pub newest : All (λ (r : AnalysisRun). r.version < run.version) before
  pub shipped : All (λ (i : ValidatedInsight). i.dropped ≡ false) run.insights
  pub refused : All (λ (i : ValidatedInsight). i.dropped ≡ true) run.refused_claims
  pub complete : Permᴰ (run.insights ++ run.refused_claims) insights

All-unit : (insights : List ValidatedInsight) → All {0, 0} (λ i. Unit) insights
All-unit [] = tt
All-unit (i ∷ rest) = (tt, All-unit rest)

refused_dropped :
    (insights : List ValidatedInsight)
    → All
        (λ (i : ValidatedInsight). i.dropped ≡ true)
        (keep (λ (i : ValidatedInsight). i.dropped) insights)
refused_dropped insights =
    All-map (λ i h. h.1) (keep (λ (i : ValidatedInsight). i.dropped) insights)
      (keep_passed (λ i. Unit) (λ (i : ValidatedInsight). i.dropped) insights (All-unit insights))

not_dropped :
    (insights : List ValidatedInsight)
    → All
        (λ (i : ValidatedInsight). i.dropped ≡ false)
        (keep (λ (i : ValidatedInsight). not i.dropped) insights)
not_dropped insights =
    All-map (λ i h. unnot i.dropped h.1) (keep (λ (i : ValidatedInsight). not i.dropped) insights)
      (keep_passed (λ i. Unit) (λ (i : ValidatedInsight). not i.dropped) insights
        (All-unit insights))
  where
    unnot : (b : Bool) → not b ≡ true → b ≡ false
    unnot b h = ground arith

-- A new analysis appends one run to those of the call, and changes none of them. Its version is above
-- that of every earlier run, so that versions stay distinct; its insights are insights that ship, its
-- refused claims are insights that were refused, and the two together are all the insights, each once.
pub persist_insights_lem :
    (insights : List ValidatedInsight) (s : Session)
    → Added insights s.live.runs (persist_insights insights s).1.live.runs
      × (DistinctVersions s.live.runs → DistinctVersions (persist_insights insights s).1.live.runs)
unfolding persist_insights run_of modify
persist_insights_lem insights s = (
  record {
    run = run_of s.live.runs insights s.warnings;
    appended = refl;
    newest = next_run_version_above s.live.runs;
    shipped = not_dropped insights;
    refused = refused_dropped insights;
    complete = parted (λ (i : ValidatedInsight). i.dropped) insights;
  },
  λ d.
      Pairwise-snoc s.live.runs (run_of s.live.runs insights s.warnings) d
        (next_run_version_above s.live.runs),
)
