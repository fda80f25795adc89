-- ===== src/Intelligence/Dimensions.antt =====
-- app/intelligence/dimensions.py: the eight dimensions of a deal and the state of each.
pub mod Pips
pub mod Changes
use deal_truth_api.Prelude.{
  ℕ, Bool, true, false, ◌&&◌, ◌||◌, Option, none, some, List, [], ◌∷◌, String, Text, codes, Dict,
  lookup, map, ltb, ◌==◌, same_text, if◌then◌else◌,
}
use deal_truth_api.Intelligence.Domain.{Value}
use deal_truth_api.Intelligence.Extract.{label_threshold}

-- `DIMENSIONS`
abbrev pub dimensions : List String
dimensions =
    "pain_identified" ∷ "business_impact_identified" ∷ "decision_maker_identified"
    ∷ "economic_buyer_identified" ∷ "timeline_identified" ∷ "next_meeting_committed"
    ∷ "competitor_active" ∷ "blocker_active" ∷ []

-- `STATES`
pub data SignalState : Type 0 where
  proven blocked weak missing : SignalState

-- `_SignalLike`
pub record Signal : Type 0 where
  pub title : Text
  pub confidence : ℕ
  pub payload : Dict Value

-- `dimension in ADVERSE_DIMENSIONS`
unfoldable pub is_adverse : Text → Bool
is_adverse dimension =
    same_text (codes "competitor_active") dimension || same_text (codes "blocker_active") dimension

unfoldable pub dimension_state : Text → Bool → ℕ → SignalState
unfolding is_adverse
dimension_state dimension present confidence =
    if present
    then (if is_adverse dimension then blocked else proven)
    else if ltb 0 confidence && ltb confidence label_threshold
    then weak
    else missing

-- `bool(payload.get(key))`
unfoldable pub truthy : Option Value → Bool
truthy none = false
truthy (some Value.null) = false
truthy (some (Value.flag b)) = b
truthy (some (Value.number n)) = ltb 0 n
truthy (some (Value.text [])) = false
truthy (some (Value.texts [])) = false
truthy (some (Value.spans [])) = false
truthy (some (Value.scores [])) = false
truthy (some (Value.flags [])) = false
truthy (some _) = true

-- `str(payload.get("dimension") or title or "")`; `none` is the `str` of a value that is no text,
-- which spells no dimension.
unfoldable pub spelled : Option Value → Text → Option Text
unfolding truthy
spelled (some (Value.text (c ∷ t))) title = some (c ∷ t)
spelled v title = if truthy v then none else some title

unfoldable pub dimension_of : Signal → Option Text
unfolding spelled
dimension_of s = spelled (lookup "dimension" s.payload) s.title

-- `states`: the keys are always those of `DIMENSIONS`, each once.
abbrev pub Pips : Type 0
Pips = List (String × SignalState)

-- `states[dimension] = state`, nothing where `dimension not in states`.
unfoldable pub set_state : Text → SignalState → Pips → Pips
set_state dimension state [] = []
set_state dimension state ((name, old) ∷ rest) =
    (name, if same_text (codes name) dimension then state else old) ∷ set_state dimension state rest

unfoldable pub note_signal : Option Text → Signal → Pips → Pips
unfolding set_state dimension_state truthy
note_signal none s pips = pips
note_signal (some dimension) s pips =
    set_state dimension
      (dimension_state dimension (truthy (lookup "present" s.payload)) s.confidence) pips

unfoldable pub signals_from : Pips → List Signal → Pips
unfolding note_signal dimension_of
signals_from pips [] = pips
signals_from pips (s ∷ rest) = signals_from (note_signal (dimension_of s) s pips) rest

unfoldable pub signal_pips : List Signal → Pips
unfolding signals_from
signal_pips signals = signals_from (map (λ (name : String). (name, missing)) dimensions) signals

-- The dict `{"dimension": ..., "from": ..., "to": ...}`.
pub record Delta : Type 0 where
  pub dimension : String
  pub was : SignalState
  pub now : SignalState

abbrev state_rank : SignalState → ℕ
state_rank proven = 0
state_rank blocked = 1
state_rank weak = 2
state_rank missing = 3

abbrev pub same_state : SignalState → SignalState → Bool
same_state a b = state_rank a == state_rank b

-- `states.get(dimension, "missing")`
unfoldable pub state_at : String → Pips → SignalState
state_at name pips = elim (lookup name pips) [ none ↦ missing | some s ↦ s ]

unfoldable pub deltas_over : List String → Pips → Pips → List Delta
unfolding state_at
deltas_over [] previous current = []
deltas_over (name ∷ names) previous current =
    if same_state (state_at name previous) (state_at name current)
    then deltas_over names previous current
    else record { dimension = name; was = state_at name previous; now = state_at name current }
      ∷ deltas_over names previous current

unfoldable pub dimension_deltas : Pips → Pips → List Delta
unfolding deltas_over
dimension_deltas previous current = deltas_over dimensions previous current
