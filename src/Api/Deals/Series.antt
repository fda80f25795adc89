-- ===== src/Api/Deals/Series.antt =====
-- app/api/v1/deals.py: the deltas of a deal over all its calls.
use deal_truth_api.Prelude.{◌≡◌, refl, List, [], ◌∷◌, ◌++◌, map, Option, none, some, All}
use deal_truth_api.Intelligence.Dimensions.{Delta, Pips, dimension_deltas}
use deal_truth_api.Intelligence.Dimensions.Changes.{
  patched, Changed, Told, dimension_deltas-Told, patched-dimension_deltas,
}
use deal_truth_api.Pipeline.Session.{AnalysisRun}
use deal_truth_api.Api.Deals.{
  DealCall, DealDelta, states_for_run, latest_run, entry_of, deltas_between, deltas_after,
  deal_deltas, evidence_for_dimension,
}

abbrev pub changes : List DealDelta → List Delta
changes ds = map (λ (d : DealDelta). d.change) ds

abbrev pub states_of : DealCall → Pips
states_of call = (entry_of call).dimension_states

map-map :
    (f : Delta → DealDelta) (ds : List Delta)
    → ((d : Delta) → (f d).change ≡ d)
    → changes (map f ds) ≡ ds
map-map f [] h = refl
map-map f (d ∷ ds) h = λ i. h d i ∷ map-map f ds h i

changes_between :
    (before after : DealCall)
    → changes (deltas_between before after) ≡ dimension_deltas (states_of before) (states_of after)
unfolding deltas_between
changes_between before after =
    map-map _ (dimension_deltas (states_of before) (states_of after)) (λ d. refl)

-- The states of two runs, and the deltas between them.
step :
    (p q : Option AnalysisRun)
    → All Changed (dimension_deltas (states_for_run p) (states_for_run q))
      × (patched (states_for_run p) (dimension_deltas (states_for_run p) (states_for_run q))
          ≡ states_for_run q)
unfolding states_for_run
step none none = patched-dimension_deltas _ _
step none (some q) = patched-dimension_deltas _ _
step (some p) none = patched-dimension_deltas _ _
step (some p) (some q) = patched-dimension_deltas _ _

step_calls :
    (before after : DealCall)
    → All Changed (dimension_deltas (states_of before) (states_of after))
      × (patched (states_of before) (dimension_deltas (states_of before) (states_of after))
          ≡ states_of after)
unfolding entry_of
step_calls before after = step (latest_run before.runs) (latest_run after.runs)

-- A delta from one call to another: it names the two, and a dimension with its states in them, which
-- differ.
abbrev pub Step : DealCall → DealCall → DealDelta → Type 0
Step before after d =
    (d.from_call_id ≡ before.id)
    × (d.to_call_id ≡ after.id)
    × Told (states_of before) (states_of after) d.change

-- The deltas of a series of calls: first those from the first call to the second, whose changes make the
-- states of the one those of the other, and then those from the second on.
pub Steps : DealCall → List DealCall → List DealDelta → Type 0
Steps call [] ds = ds ≡ []
Steps call (next ∷ calls) ds =
    (here : List DealDelta) × ((there : List DealDelta) × ((ds ≡ here ++ there)
        × All (Step call next) here
        × (patched (states_of call) (changes here) ≡ states_of next)
        × Steps next calls there))

deltas_between-Step :
    (before after : DealCall) → All (Step before after) (deltas_between before after)
unfolding deltas_between
deltas_between-Step before after =
    told _ (dimension_deltas-Told (states_of before) (states_of after))
  where
    told :
        (ds : List Delta)
        → All (Told (states_of before) (states_of after)) ds
        → All (Step before after) (
            map
              (λ (change : Delta). record {
                change = change;
                from_call_id = before.id;
                to_call_id = after.id;
                evidence_segment_ids =
                    evidence_for_dimension (latest_run before.runs) change.dimension;
              })
              ds)
    told [] h = tt
    told (d ∷ ds) h = ((refl, refl, h.0), told ds h.1)

-- The deltas of a deal are, for each call but the last and in the order of the calls, those from it to the
-- next one. Each names the two calls, and a dimension with its states in them, which differ; and together
-- they name all that changed: made to the states of the one call, they give those of the next.
pub patched-deal_deltas :
    (call : DealCall) (calls : List DealCall) → Steps call calls (deal_deltas (call ∷ calls))
unfolding deal_deltas deltas_after Steps
patched-deal_deltas call [] = refl
patched-deal_deltas call (next ∷ calls) = (
  deltas_between call next,
  (
    deltas_after next calls,
    (
      refl,
      deltas_between-Step call next,
      rw (changes_between call next) (step_calls call next).1,
      patched-deal_deltas next calls,
    ),
  ),
)
