-- ===== src/Intelligence/Dimensions/Changes.antt =====
-- app/intelligence/dimensions.py: what `dimension_deltas` lists.
use mathlib.Core.Path.{fun_ext}
use deal_truth_api.Prelude.{
  ◌≡◌, refl, ap, ◌∙◌, sym, ◌≢◌, ◌⊎◌, true, false, List, [], ◌∷◌, ◌++◌, String, All, str_eq,
  str_eq_iff, if◌then◌else◌, Bool-cases, inl, inr, arith,
}
use deal_truth_api.Intelligence.Dimensions.{
  dimensions, SignalState, missing, Signal, Pips, signal_pips, Delta, same_state, state_at,
  deltas_over, dimension_deltas,
}
use deal_truth_api.Intelligence.Dimensions.Pips.{table, last_state, signal_pips_lem}

-- The states with one dimension changed to what a delta says.
pub set_at : String → SignalState → Pips → Pips
set_at key state [] = []
set_at key state ((name, old) ∷ rest) =
    (name, if str_eq name key then state else old) ∷ set_at key state rest

-- The states after all deltas, one after the other.
unfoldable pub patched : Pips → List Delta → Pips
patched pips [] = pips
patched pips (d ∷ rest) = patched (set_at d.dimension d.now pips) rest

pub patched-append :
    (pips : Pips) (ds es : List Delta) → patched pips (ds ++ es) ≡ patched (patched pips ds) es
unfolding patched
patched-append pips [] es = refl
patched-append pips (d ∷ ds) es = patched-append (set_at d.dimension d.now pips) ds es

-- A delta names a change.
pub Changed : Delta → Type 0
Changed d = d.was ≢ d.now

same_state→eq : (a b : SignalState) → same_state a b ≡ true → a ≡ b
same_state→eq a b h = ground arith

same_state_refl : (a : SignalState) → same_state a a ≡ true
same_state_refl a = ground arith

different : (a b : SignalState) → same_state a b ≡ false → a ≢ b
different a b h e = cc (h, same_state_refl a, ap (same_state a) e)

deltas-Changed : (names : List String) (p q : Pips) → All Changed (deltas_over names p q)
unfolding deltas_over Changed
deltas-Changed [] p q = tt
deltas-Changed (name ∷ names) p q =
    elim (Bool-cases (same_state (state_at name p) (state_at name q))) [
      | inl e ↦ rw e (deltas-Changed names p q)
      | inr e ↦ rw e (different (state_at name p) (state_at name q) e, deltas-Changed names p q)
    ]

-- A delta tells the states of its dimension before and after.
abbrev pub Told : Pips → Pips → Delta → Type 0
Told p q d = (d.was ≡ state_at d.dimension p) × (d.now ≡ state_at d.dimension q) × (d.was ≢ d.now)

deltas_over-Told : (names : List String) (p q : Pips) → All (Told p q) (deltas_over names p q)
unfolding deltas_over
deltas_over-Told [] p q = tt
deltas_over-Told (name ∷ names) p q =
    elim (Bool-cases (same_state (state_at name p) (state_at name q))) [
      | inl e ↦ rw e (deltas_over-Told names p q)
      | inr e ↦ rw e (
        (refl, refl, different (state_at name p) (state_at name q) e),
        deltas_over-Told names p q,
      )
    ]

pub dimension_deltas-Told : (p q : Pips) → All (Told p q) (dimension_deltas p q)
unfolding dimension_deltas
dimension_deltas-Told p q = deltas_over-Told dimensions p q

set_at-table :
    (key : String) (state : SignalState) (names : List String) (f : String → SignalState)
    → set_at key state (table names f)
      ≡ table names (λ name. if str_eq name key then state else f name)
unfolding set_at
set_at-table key state [] f = refl
set_at-table key state (name ∷ names) f =
    ap (λ (rest : Pips). (name, if str_eq name key then state else f name) ∷ rest)
      (set_at-table key state names f)

module _ (f g : String → SignalState) where
  -- The states once the given dimensions have been brought to what `g` says.
  abbrev reached : List String → (String → SignalState) → String → SignalState
  reached [] h = h
  reached (key ∷ keys) h = reached keys (λ name. if str_eq name key then g key else h name)

  -- Each state is an old or a new one.
  abbrev Between : (String → SignalState) → Type 0
  Between h = (name : String) → (h name ≡ f name) ⊎ (h name ≡ g name)

  unchanged :
      (key : String) (h : String → SignalState)
      → f key ≡ g key
      → Between h
      → (name : String) → h name ≡ (if str_eq name key then g key else h name)
  unchanged key h e b name = elim (Bool-cases (str_eq name key)) [
    | inl same ↦
        let at : name ≡ key = (str_eq_iff name key).0 same in
        rw same (elim (b name) [ inl old ↦ old ∙ (ap f at ∙ e) | inr new ↦ new ∙ ap g at ])
    | inr other ↦ rw other refl
  ]

  set_Between :
      (key : String) (h : String → SignalState)
      → Between h
      → Between (λ name. if str_eq name key then g key else h name)
  set_Between key h b name = elim (Bool-cases (str_eq name key)) [
    | inl same ↦ rw same (inr (ap g (sym ((str_eq_iff name key).0 same))))
    | inr other ↦ rw other (b name)
  ]

  module _ (p q : Pips) where
    patched-deltas_over :
        (all names : List String) (h : String → SignalState)
        → All (λ name. (state_at name p ≡ f name) × (state_at name q ≡ g name)) names
        → Between h
        → patched (table all h) (deltas_over names p q) ≡ table all (reached names h)
    unfolding patched deltas_over
    patched-deltas_over all [] h k b = refl
    patched-deltas_over all (key ∷ keys) h k b =
        elim (Bool-cases (same_state (state_at key p) (state_at key q))) [
          | inl e ↦
              let same : f key ≡ g key =
                sym k.0.0 ∙ (same_state→eq (state_at key p) (state_at key q) e ∙ k.0.1) in
              rw e (
                ap (λ (k : String → SignalState). patched (table all k) (deltas_over keys p q))
                  (fun_ext (unchanged key h same b))
                ∙ patched-deltas_over all keys (λ name. if str_eq name key then g key else h name)
                    k.1 (set_Between key h b))
          | inr e ↦
              rw (e, k.0.1, set_at-table key (g key) all h)
                (patched-deltas_over all keys (λ name. if str_eq name key then g key else h name)
                  k.1 (set_Between key h b))
        ]

-- The deltas between two lists of signals name only dimensions that changed, and all of them: the
-- changes, made to the earlier states, give the later ones.
pub patched-dimension_deltas :
    (before after : List Signal)
    → All Changed (dimension_deltas (signal_pips before) (signal_pips after))
      × (patched (signal_pips before) (dimension_deltas (signal_pips before) (signal_pips after))
          ≡ signal_pips after)
unfolding dimension_deltas state_at
patched-dimension_deltas before after =
    let f = last_state missing before in
    let g = last_state missing after in
    rw (signal_pips_lem before, signal_pips_lem after)
      (
        deltas-Changed dimensions (table dimensions f) (table dimensions g),
        patched-deltas_over f g (table dimensions f) (table dimensions g) dimensions dimensions f
            (
              (refl, refl),
              (
                (refl, refl),
                (
                  (refl, refl),
                  (
                    (refl, refl),
                    ((refl, refl), ((refl, refl), ((refl, refl), ((refl, refl), tt)))),
                  ),
                ),
              ),
            )
            (λ name. inl refl),
      )
