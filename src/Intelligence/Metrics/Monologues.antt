-- ===== src/Intelligence/Metrics/Monologues.antt =====
-- app/intelligence/metrics.py: the longest monologue among the runs of one speaker.
use deal_truth_api.Prelude.{
  ◌+◌, ◌≡◌, ◌≤◌, ◌<◌, ◌⊎◌, inl, inr, refl, ap, sym, subst, ◌∙◌, Bool, true, false, List, [], ◌∷◌,
  ◌++◌, All, Memᴰ, Bool-cases, ltb, leb, ◌&&◌, ltb→lt, leb→le, arith, append_assoc, and_true,
  if◌then◌else◌,
}
use deal_truth_api.Core.Enums.{same_role, same_role→eq, same_role_refl}
use deal_truth_api.Intelligence.Domain.{Segment}
use deal_truth_api.Intelligence.Ask.{same_id}
use deal_truth_api.Intelligence.Metrics.{
  Run, last_segment, run_members, run_ms, Monologue, no_monologue, monologue_of, maybe_best, joins,
  longest_from, longest_monologue,
}

abbrev extended : Run → Segment → Run
extended run seg = record run { tail = run.tail ++ seg ∷ [] }

abbrev alone : Segment → Run
alone seg = record { head = seg; tail = [] }

-- The run at hand and those after it.
runs_from : Run → List Segment → List Run
runs_from run [] = run ∷ []
runs_from run (seg ∷ rest) = elim (joins run seg) [
  | true ↦ runs_from (extended run seg) rest
  | false ↦ run ∷ runs_from (alone seg) rest
]

best_of : Monologue → List Run → Monologue
best_of best [] = best
best_of best (r ∷ rs) = best_of (maybe_best best r) rs

longest_from-runs :
    (best : Monologue) (run : Run) (segs : List Segment)
    → longest_from best run segs ≡ best_of best (runs_from run segs)
unfolding longest_from runs_from best_of
longest_from-runs best run [] = refl
longest_from-runs best run (seg ∷ rest) =
    elim (joins run seg)
      as (λ b.
        longest_from (if b then best else maybe_best best run)
          (if b then extended run seg else alone seg) rest
        ≡ best_of best (elim b [
          | true ↦ runs_from (extended run seg) rest
          | false ↦ run ∷ runs_from (alone seg) rest
        ])) [
          | true ↦ longest_from-runs best (extended run seg) rest
          | false ↦ longest_from-runs (maybe_best best run) (alone seg) rest
        ]

-- The members of the runs, in order.
pub joined : List Run → List Segment
joined [] = []
joined (r ∷ rs) = run_members r ++ joined rs

-- The next segment is by the same speaker in the same role, and begins at most 500 ms after the end.
pub Follows : Segment → Segment → Type 0
Follows prev seg =
    (same_id seg.speaker_id prev.speaker_id ≡ true)
    × (seg.speaker_role ≡ prev.speaker_role)
    × (seg.start_ms ≤ prev.end_ms + 500)

pub Chain : Segment → List Segment → Type 0
Chain prev [] = Unit
Chain prev (seg ∷ segs) = Follows prev seg × Chain seg segs

-- A run breaks off where the next segment does not follow its last one.
pub Separated : List Run → Type 0
Separated [] = Unit
Separated (r ∷ []) = Unit
Separated (r ∷ q ∷ rs) = ¬ Follows (last_segment r.head r.tail) q.head × Separated (q ∷ rs)

joins-Follows :
    (run : Run) (seg : Segment)
    → joins run seg ≡ true
    → Follows (last_segment run.head run.tail) seg
unfolding joins Follows
joins-Follows run seg h =
    let prev = last_segment run.head run.tail in
    let (same, near) =
      and_true
        (same_id seg.speaker_id prev.speaker_id && same_role seg.speaker_role prev.speaker_role)
        (leb seg.start_ms (prev.end_ms + 500)) h in
    let (id, role) =
      and_true (same_id seg.speaker_id prev.speaker_id)
        (same_role seg.speaker_role prev.speaker_role) same in
    (id, same_role→eq seg.speaker_role prev.speaker_role role, leb→le seg.start_ms _ near)

Follows-joins :
    (run : Run) (seg : Segment)
    → joins run seg ≡ false
    → ¬ Follows (last_segment run.head run.tail) seg
unfolding joins Follows
Follows-joins run seg h (id, role, near) =
    let prev = last_segment run.head run.tail in
    let same : same_role seg.speaker_role prev.speaker_role ≡ true =
      subst (λ r. same_role seg.speaker_role r ≡ true) role (same_role_refl seg.speaker_role) in
    ground (arith, id, same, near)

Chain-snoc :
    (prev : Segment) (segs : List Segment) (seg : Segment)
    → Chain prev segs
    → Follows (last_segment prev segs) seg
    → Chain prev (segs ++ seg ∷ [])
unfolding Chain last_segment
Chain-snoc prev [] seg c f = (f, tt)
Chain-snoc prev (s ∷ segs) seg c f = (c.0, Chain-snoc s segs seg c.1 f)

pub IsRun : Run → Type 0
IsRun r = Chain r.head r.tail

runs_from-joined :
    (run : Run) (segs : List Segment) → joined (runs_from run segs) ≡ run_members run ++ segs
unfolding runs_from joined run_members
runs_from-joined run [] = refl
runs_from-joined run (seg ∷ rest) =
    elim (joins run seg)
      as (λ b.
        joined (elim b [
          | true ↦ runs_from (extended run seg) rest
          | false ↦ run ∷ runs_from (alone seg) rest
        ])
        ≡ run_members run ++ (seg ∷ rest)) [
          | true ↦
              runs_from-joined (extended run seg) rest
              ∙ ap (λ (l : List Segment). run.head ∷ l) (append_assoc run.tail (seg ∷ []) rest)
          | false ↦
              ap (λ (l : List Segment). run_members run ++ l) (runs_from-joined (alone seg) rest)
        ]

runs_cases :
    (P : List Run → Type 0) (run : Run) (seg : Segment) (rest : List Segment)
    → (joins run seg ≡ true → P (runs_from (extended run seg) rest))
    → (joins run seg ≡ false → P (run ∷ runs_from (alone seg) rest))
    → P (runs_from run (seg ∷ rest))
unfolding runs_from
runs_cases P run seg rest t f = go (joins run seg) refl
  where
    go :
        (b : Bool)
        → joins run seg ≡ b
        → P (elim b [
          | true ↦ runs_from (extended run seg) rest
          | false ↦ run ∷ runs_from (alone seg) rest
        ])
    go true e = t e
    go false e = f e

runs_from-IsRun : (run : Run) (segs : List Segment) → IsRun run → All IsRun (runs_from run segs)
unfolding runs_from
runs_from-IsRun run [] c = (c, tt)
runs_from-IsRun run (seg ∷ rest) c =
    runs_cases (All IsRun) run seg rest
      (λ e.
        runs_from-IsRun (extended run seg) rest
          (unfold IsRun in Chain-snoc run.head run.tail seg c (joins-Follows run seg e)))
      (λ e. (c, runs_from-IsRun (alone seg) rest (unfold IsRun in unfold Chain in tt)))

-- The first of the runs begins where the run at hand does.
abbrev Begins : Segment → List Run → Type 0
Begins s [] = Unit → ⊥
Begins s (r ∷ rs) = r.head ≡ s

runs_from-Begins : (run : Run) (segs : List Segment) → Begins run.head (runs_from run segs)
unfolding runs_from
runs_from-Begins run [] = refl
runs_from-Begins run (seg ∷ rest) =
    runs_cases (Begins run.head) run seg rest (λ e. runs_from-Begins (extended run seg) rest)
      (λ e. refl)

separate :
    (run : Run) (seg : Segment) (rs : List Run)
    → joins run seg ≡ false
    → Begins seg rs
    → Separated rs
    → Separated (run ∷ rs)
unfolding Separated
separate run seg [] e b s = absurd (b tt)
separate run seg (q ∷ rs) e b s =
    (subst (λ t. ¬ Follows (last_segment run.head run.tail) t) (sym b) (Follows-joins run seg e), s)

runs_from-Separated : (run : Run) (segs : List Segment) → Separated (runs_from run segs)
unfolding runs_from
runs_from-Separated run [] = unfold Separated in tt
runs_from-Separated run (seg ∷ rest) =
    runs_cases Separated run seg rest (λ e. runs_from-Separated (extended run seg) rest)
      (λ e.
        separate run seg (runs_from (alone seg) rest) e (runs_from-Begins (alone seg) rest)
          (runs_from-Separated (alone seg) rest))

best_of-least :
    (best : Monologue) (rs : List Run) → best.duration_ms ≤ (best_of best rs).duration_ms
unfolding best_of
best_of-least best [] = omega arith
best_of-least best (r ∷ rs) =
    omega (arith, best_of-least (maybe_best best r) rs, maybe_best-least best r)
  where
    maybe_best-least :
        (best : Monologue) (r : Run) → best.duration_ms ≤ (maybe_best best r).duration_ms
    maybe_best-least best r = unfold maybe_best in unfold monologue_of in ground arith

maybe_best-run : (best : Monologue) (r : Run) → run_ms r ≤ (maybe_best best r).duration_ms
unfolding maybe_best monologue_of
maybe_best-run best r = ground arith

best_of-greatest :
    (best : Monologue) (rs : List Run)
    → All (λ (r : Run). run_ms r ≤ (best_of best rs).duration_ms) rs
unfolding best_of
best_of-greatest best [] = tt
best_of-greatest best (r ∷ rs) = (
  omega (arith, maybe_best-run best r, best_of-least (maybe_best best r) rs),
  best_of-greatest (maybe_best best r) rs,
)

-- A monologue of one of the runs, of some length.
abbrev pub Of : List Run → Monologue → Type 0
Of rs m = (r : Run) × (Memᴰ r rs × ((m ≡ monologue_of r) × (0 < run_ms r)))

best_of-member :
    (best : Monologue) (rs : List Run) → (best_of best rs ≡ best) ⊎ Of rs (best_of best rs)
unfolding best_of
best_of-member best [] = inl refl
best_of-member best (r ∷ rs) = elim (best_of-member (maybe_best best r) rs) [
  | inr (q, (m, so)) ↦ inr (q, (Memᴰ.tail m, so))
  | inl e ↦ elim (Bool-cases (ltb best.duration_ms (run_ms r))) [
    | inl b ↦
        let longer : best.duration_ms < run_ms r = ltb→lt _ _ b in
        let this : maybe_best best r ≡ monologue_of r = unfold maybe_best in rw b refl in
        inr (r, (Memᴰ.head refl, (e ∙ this, omega arith)))
    | inr b ↦ inl (e ∙ (unfold maybe_best in rw b refl))
  ]
]

-- The runs of a call: all segments, in their order; each run is of one speaker in one role, with no gap
-- over 500 ms, and breaks off only where the next segment is by another speaker, in another role, or after a
-- gap over 500 ms.
pub record Runs (segments : List Segment) (rs : List Run) : Type 0 where
  pub whole : joined rs ≡ segments
  pub each : All IsRun rs
  pub maximal : Separated rs

-- The longest monologue of segments in order: they fall into runs that are as long as can be, none of
-- them lasts longer than the monologue, and the monologue is that of one of them that lasts some time, or,
-- where none does, empty.
pub longest_monologue_lem :
    (segments : List Segment)
    → (rs : List Run) × (Runs segments rs
        × All (λ (r : Run). run_ms r ≤ (longest_monologue segments).duration_ms) rs
        × ((longest_monologue segments ≡ no_monologue) ⊎ Of rs (longest_monologue segments)))
unfolding longest_monologue joined Separated
longest_monologue_lem [] = ([], (record { whole = refl; each = tt; maximal = tt }, tt, inl refl))
longest_monologue_lem (s ∷ rest) =
    let rs = runs_from (alone s) rest in
    rw (longest_from-runs no_monologue (alone s) rest) (
      rs,
      (
        record {
          whole = runs_from-joined (alone s) rest;
          each = runs_from-IsRun (alone s) rest (unfold IsRun in unfold Chain in tt);
          maximal = runs_from-Separated (alone s) rest;
        },
        best_of-greatest no_monologue rs,
        best_of-member no_monologue rs,
      ),
    )
