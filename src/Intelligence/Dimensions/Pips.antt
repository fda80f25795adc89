-- ===== src/Intelligence/Dimensions/Pips.antt =====
-- app/intelligence/dimensions.py: the states as a function of the signals.
use mathlib.Core.Path.{fun_ext}
use deal_truth_api.Prelude.{
  ℕ, ◌≡◌, refl, ap, sym, ◌∙◌, Option, none, some, List, [], ◌∷◌, String, Text, codes, lookup, map,
  ltb, same_text, if◌then◌else◌, arith, Bool-cases, inl, inr,
}
use deal_truth_api.Intelligence.Domain.{Segment, CandidateInsight, Value}
use deal_truth_api.Intelligence.Extract.{
  clears, customer_segments, best, max_label, quantified_pain,
}
use deal_truth_api.Intelligence.Extract.Customer.{
  dimension_hits, signal_of, signals_of, present_signal, absent_signal, extract_buying_intent,
}
use deal_truth_api.Intelligence.Dimensions.{
  dimensions, SignalState, missing, weak, proven, blocked, Signal, is_adverse, dimension_state,
  truthy, spelled, dimension_of, Pips, set_state, note_signal, signals_from, signal_pips,
}

-- Each name with the state that a function gives it.
abbrev pub table : List String → (String → SignalState) → Pips
table names f = map (λ (name : String). (name, f name)) names

-- What one signal makes of the state of a dimension.
pub noted : Option Text → Signal → String → SignalState → SignalState
noted none s name old = old
noted (some dimension) s name old =
    if same_text (codes name) dimension
    then dimension_state dimension (truthy (lookup "present" s.payload)) s.confidence
    else old

-- The state that the last signal about the dimension gives, or the first argument.
pub last_state : SignalState → List Signal → String → SignalState
last_state old [] name = old
last_state old (s ∷ rest) name = last_state (noted (dimension_of s) s name old) rest name

set_state-table :
    (dimension : Text) (state : SignalState) (names : List String) (f : String → SignalState)
    → set_state dimension state (table names f)
      ≡ table names (λ name. if same_text (codes name) dimension then state else f name)
unfolding set_state
set_state-table dimension state [] f = refl
set_state-table dimension state (name ∷ names) f =
    ap (λ (rest : Pips). (name, if same_text (codes name) dimension then state else f name) ∷ rest)
      (set_state-table dimension state names f)

note_signal-table :
    (d : Option Text) (s : Signal) (names : List String) (f : String → SignalState)
    → note_signal d s (table names f) ≡ table names (λ name. noted d s name (f name))
unfolding note_signal noted
note_signal-table none s names f = refl
note_signal-table (some d) s names f =
    set_state-table d (dimension_state d (truthy (lookup "present" s.payload)) s.confidence) names f

signals_from-table :
    (signals : List Signal) (names : List String) (f : String → SignalState)
    → signals_from (table names f) signals ≡ table names (λ name. last_state (f name) signals name)
unfolding signals_from last_state
signals_from-table [] names f = refl
signals_from-table (s ∷ rest) names f =
    rw (note_signal-table (dimension_of s) s names f)
      (signals_from-table rest names (λ name. noted (dimension_of s) s name (f name)))

-- Whatever the signals are, the result has the eight dimensions, each once and in the order of
-- DIMENSIONS, and the state of each is that of the last signal about it, or missing.
pub signal_pips_lem :
    (signals : List Signal) → signal_pips signals ≡ table dimensions (last_state missing signals)
unfolding signal_pips
signal_pips_lem signals = signals_from-table signals dimensions (λ name. missing)

abbrev pub as_signal : CandidateInsight → Signal
as_signal c = record { title = c.title; confidence = c.confidence; payload = c.payload }

-- What the best score for a dimension says of it: established at the threshold, weak below it, missing
-- at 0.
pub hit_state : String → ℕ → SignalState
hit_state name n =
    if clears n
    then (if is_adverse (codes name) then blocked else proven)
    else if ltb 0 n
    then weak
    else missing

spelled_text : (t : Text) → spelled (some (Value.text t)) t ≡ some t
unfolding spelled truthy
spelled_text [] = refl
spelled_text (c ∷ t) = refl

dimension_of-signal :
    (name : String) (hit : Option Segment) (n : ℕ)
    → dimension_of (as_signal (signal_of name hit n)) ≡ some (codes name)
unfolding dimension_of signal_of present_signal absent_signal
dimension_of-signal name none n = spelled_text (codes name)
dimension_of-signal name (some seg) n = elim (Bool-cases (clears n)) [
  | inl e ↦ rw e (spelled_text (codes name))
  | inr e ↦ rw e (spelled_text (codes name))
]

hit_state-eq :
    (name : String) (n : ℕ) → dimension_state (codes name) (clears n) n ≡ hit_state name n
unfolding dimension_state hit_state
hit_state-eq name n = ground arith

state-signal :
    (name : String) (hit : Option Segment) (n : ℕ)
    → (let s = as_signal (signal_of name hit n) in
        dimension_state (codes name) (truthy (lookup "present" s.payload)) s.confidence)
      ≡ hit_state name n
unfolding signal_of present_signal absent_signal truthy
state-signal name none n = hit_state-eq name n
state-signal name (some seg) n = elim (Bool-cases (clears n)) [
  | inl e ↦ rw e (ap (λ b. dimension_state (codes name) b n) (sym e) ∙ hit_state-eq name n)
  | inr e ↦ rw e (ap (λ b. dimension_state (codes name) b n) (sym e) ∙ hit_state-eq name n)
]

-- What a list of hits makes of the state of a dimension.
state_from : SignalState → List (String × (Option Segment × ℕ)) → String → SignalState
state_from old [] key = old
state_from old ((name, (hit, n)) ∷ rest) key =
    state_from (if same_text (codes key) (codes name) then hit_state name n else old) rest key

noted-signal :
    (name : String) (hit : Option Segment) (n : ℕ) (key : String) (old : SignalState)
    → (let s = as_signal (signal_of name hit n) in noted (dimension_of s) s key old)
      ≡ (if same_text (codes key) (codes name) then hit_state name n else old)
noted-signal name hit n key old =
    let s = as_signal (signal_of name hit n) in
    ap (λ (d : Option Text). noted d s key old) (dimension_of-signal name hit n)
    ∙ (unfold noted in
        ap (λ (x : SignalState). if same_text (codes key) (codes name) then x else old)
          (state-signal name hit n))

last_state-signals :
    (hits : List (String × (Option Segment × ℕ))) (old : SignalState) (key : String)
    → last_state old (map as_signal (signals_of hits)) key ≡ state_from old hits key
unfolding last_state signals_of state_from
last_state-signals [] old key = refl
last_state-signals ((name, (hit, n)) ∷ rest) old key =
    ap (λ (x : SignalState). last_state x (map as_signal (signals_of rest)) key)
      (noted-signal name hit n key old)
    ∙ last_state-signals rest (if same_text (codes key) (codes name) then hit_state name n else old)
        key

-- Of the buying-intent candidates of a transcript, each dimension has the state that the customer's
-- best score for its label gives: business impact that of a pain point with a quantity, and the
-- blocker that of the highest of the three blockers.
pub signal_pips-extract_buying_intent :
    (segments : List Segment)
    → (let cust = customer_segments segments in
        signal_pips (map as_signal (extract_buying_intent segments))
        ≡ ("pain_identified", hit_state "pain_identified" (best cust "pain point").1)
          ∷ (
            "business_impact_identified",
            hit_state "business_impact_identified" (quantified_pain cust).1,
          )
          ∷ (
            "decision_maker_identified",
            hit_state "decision_maker_identified" (best cust "decision maker identified").1,
          )
          ∷ (
            "economic_buyer_identified",
            hit_state "economic_buyer_identified" (best cust "economic buyer identified").1,
          )
          ∷ (
            "timeline_identified",
            hit_state "timeline_identified" (best cust "purchase timeline").1,
          )
          ∷ (
            "next_meeting_committed",
            hit_state "next_meeting_committed" (best cust "next meeting commitment").1,
          )
          ∷ ("competitor_active", hit_state "competitor_active" (best cust "competitor mention").1)
          ∷ (
            "blocker_active",
            hit_state "blocker_active"
                (max_label cust
                  ("security blocker" ∷ "budget blocker" ∷ "technical blocker" ∷ [])).1,
          )
          ∷ [])
unfolding extract_buying_intent dimension_hits state_from same_text
signal_pips-extract_buying_intent segments =
    let hits = dimension_hits (customer_segments segments) in
    signal_pips_lem (map as_signal (signals_of hits))
    ∙ ap (table dimensions) (fun_ext (last_state-signals hits missing))
