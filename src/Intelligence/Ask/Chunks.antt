-- ===== src/Intelligence/Ask/Chunks.antt =====
-- app/intelligence/ask.py: the groups that the chunks are made of.
use deal_truth_api.Prelude.{
  ℕ, ◌≡◌, refl, ap, ◌∙◌, ◌≤◌, ◌+◌, ◌⊎◌, inl, inr, Bool, true, false, Option, List, [], ◌∷◌, ◌++◌,
  All, map, length, arith, append_assoc, Bool-cases, ltb, if_elim, Pairwise, All-map,
}
use mathlib.Core.List.{Permᴰ}
use mathlib.Core.List.Permᴰ
use deal_truth_api.Intelligence.Domain.{Segment}
use deal_truth_api.Intelligence.Ask.{
  Group, members, last_in, last_of, fits, group_from, groups, total_chars, same_id, chunk_of,
  chunk_segments, by_sequence, insert_by_sequence,
}

-- The members of the groups, in order.
pub joined : List Group → List Segment
joined [] = []
joined (g ∷ gs) = members g ++ joined gs

module _ (max_chars : ℕ) (g : Group) (seg : Segment) (segs : List Segment) where
  abbrev next : Bool → List Group
  next true = group_from max_chars (record { head = g.head; tail = g.tail ++ seg ∷ [] }) segs
  next false = g ∷ group_from max_chars (record { head = seg; tail = [] }) segs

  group_from-next : group_from max_chars g (seg ∷ segs) ≡ next (fits max_chars g seg)
  unfolding group_from
  group_from-next = elim (fits max_chars g seg) [ true ↦ refl | false ↦ refl ]

group_from-joined :
    (max_chars : ℕ) (g : Group) (segs : List Segment)
    → joined (group_from max_chars g segs) ≡ members g ++ segs
unfolding joined group_from
group_from-joined max_chars g [] = refl
group_from-joined max_chars g (seg ∷ segs) = elim (Bool-cases (fits max_chars g seg)) [
  | inl h ↦
      rw (group_from-next max_chars g seg segs, h)
        (group_from-joined max_chars (record { head = g.head; tail = g.tail ++ seg ∷ [] }) segs
          ∙ append_assoc (members g) (seg ∷ []) segs)
  | inr h ↦
      rw (group_from-next max_chars g seg segs, h)
        (ap (λ (l : List Segment). members g ++ l)
          (group_from-joined max_chars (record { head = seg; tail = [] }) segs))
]

groups-joined : (max_chars : ℕ) (segs : List Segment) → joined (groups max_chars segs) ≡ segs
unfolding groups joined
groups-joined max_chars [] = refl
groups-joined max_chars (seg ∷ segs) =
    group_from-joined max_chars (record { head = seg; tail = [] }) segs

-- One segment follows another in one chunk: the same speaker, at most 1500 ms later.
pub Follows : Segment → Segment → Type 0
Follows prev seg = (prev.speaker_id ≡ seg.speaker_id) × (seg.start_ms ≤ prev.end_ms + 1500)

-- Each segment of the list follows the one before it.
pub Chain : Segment → List Segment → Type 0
Chain prev [] = Unit
Chain prev (seg ∷ segs) = Follows prev seg × Chain seg segs

-- A group is one utterance: no change of speaker, no long gap, and within the limit unless it is a
-- single segment.
pub record Compact (max_chars : ℕ) (g : Group) : Type 0 where
  pub chain : Chain g.head g.tail
  pub small : (g.tail ≡ []) ⊎ (total_chars (members g) ≤ max_chars)

same_id→eq : (a b : Option ℕ) → same_id a b ≡ true → a ≡ b
unfolding same_id
same_id→eq a b h = ground arith

Chain-snoc :
    (prev : Segment) (segs : List Segment) (seg : Segment)
    → Chain prev segs
    → Follows (last_of prev segs) seg
    → Chain prev (segs ++ seg ∷ [])
unfolding Chain last_of
Chain-snoc prev [] seg c f = (f, tt)
Chain-snoc prev (s ∷ segs) seg c f = (c.0, Chain-snoc s segs seg c.1 f)

total_chars-snoc :
    (segs : List Segment) (seg : Segment)
    → total_chars (segs ++ seg ∷ []) ≡ total_chars segs + length seg.text
unfolding total_chars
total_chars-snoc [] seg = omega arith
total_chars-snoc (s ∷ segs) seg = ground (arith, total_chars-snoc segs seg)

fits-Compact :
    (max_chars : ℕ) (g : Group) (seg : Segment)
    → Compact max_chars g
    → fits max_chars g seg ≡ true
    → Compact max_chars (record { head = g.head; tail = g.tail ++ seg ∷ [] })
unfolding fits last_in Follows
fits-Compact max_chars g seg c h = record {
  chain =
      Chain-snoc g.head g.tail seg c.chain
        (same_id→eq (last_in g).speaker_id seg.speaker_id (ground arith), ground arith);
  small = inr (ground (arith, total_chars-snoc (members g) seg));
}

single-Compact :
    (max_chars : ℕ) (seg : Segment) → Compact max_chars (record { head = seg; tail = [] })
unfolding Chain
single-Compact max_chars seg = record { chain = tt; small = inl refl }

group_from-Compact :
    (max_chars : ℕ) (g : Group) (segs : List Segment)
    → Compact max_chars g
    → All (Compact max_chars) (group_from max_chars g segs)
unfolding group_from
group_from-Compact max_chars g [] c = (c, tt)
group_from-Compact max_chars g (seg ∷ segs) c = elim (Bool-cases (fits max_chars g seg)) [
  | inl h ↦
      rw (group_from-next max_chars g seg segs, h)
        (group_from-Compact max_chars (record { head = g.head; tail = g.tail ++ seg ∷ [] }) segs
          (fits-Compact max_chars g seg c h))
  | inr h ↦
      rw (group_from-next max_chars g seg segs, h)
        (
          c,
          group_from-Compact max_chars (record { head = seg; tail = [] }) segs
              (single-Compact max_chars seg),
        )
]

groups-Compact :
    (max_chars : ℕ) (segs : List Segment) → All (Compact max_chars) (groups max_chars segs)
unfolding groups
groups-Compact max_chars [] = tt
groups-Compact max_chars (seg ∷ segs) =
    group_from-Compact max_chars (record { head = seg; tail = [] }) segs
      (single-Compact max_chars seg)

insert_by_sequence-Perm :
    (s : Segment) (segs : List Segment) → Permᴰ (insert_by_sequence s segs) (s ∷ segs)
unfolding insert_by_sequence
insert_by_sequence-Perm s [] = Permᴰ.refl (s ∷ [])
insert_by_sequence-Perm s (t ∷ rest) =
    if_elim (λ l. Permᴰ l (s ∷ t ∷ rest)) (ltb t.sequence_number s.sequence_number)
      (Permᴰ.trans (Permᴰ.cons refl (insert_by_sequence-Perm s rest)) (Permᴰ.swap refl refl))
      (Permᴰ.refl (s ∷ t ∷ rest))

by_sequence-Perm : (segs : List Segment) → Permᴰ (by_sequence segs) segs
unfolding by_sequence
by_sequence-Perm [] = Permᴰ.nil
by_sequence-Perm (s ∷ rest) =
    Permᴰ.trans (insert_by_sequence-Perm s (by_sequence rest))
      (Permᴰ.cons refl (by_sequence-Perm rest))

-- The first stands before the second, or at the same place.
abbrev pub Before : Segment → Segment → Type 0
Before s t = s.sequence_number ≤ t.sequence_number

insert_All :
    (q s : Segment) (segs : List Segment)
    → Before q s
    → All (Before q) segs
    → All (Before q) (insert_by_sequence s segs)
unfolding insert_by_sequence
insert_All q s [] h hs = (h, tt)
insert_All q s (t ∷ rest) h hs =
    if_elim (All (Before q)) (ltb t.sequence_number s.sequence_number)
      (hs.0, insert_All q s rest h hs.1) (h, hs)

insert_ordered :
    (s : Segment) (segs : List Segment)
    → Pairwise Before segs
    → Pairwise Before (insert_by_sequence s segs)
unfolding insert_by_sequence
insert_ordered s [] h = (tt, tt)
insert_ordered s (t ∷ rest) h = elim (Bool-cases (ltb t.sequence_number s.sequence_number)) [
  | inl e ↦ rw e (insert_All t s rest (ground arith) h.0, insert_ordered s rest h.1)
  | inr e ↦
      let first : Before s t = ground arith in
      rw e ((first, All-map (λ q b. let here : Before t q = b in ground arith) rest h.0), h)
]

by_sequence_ordered : (segs : List Segment) → Pairwise Before (by_sequence segs)
unfolding by_sequence
by_sequence_ordered [] = tt
by_sequence_ordered (s ∷ rest) = insert_ordered s (by_sequence rest) (by_sequence_ordered rest)

-- How a transcript is cut: into groups that hold each segment once, in the order of the sequence
-- numbers, where each group is compact.
pub record IsCut (max_chars : ℕ) (segments : List Segment) (gs : List Group) : Type 0 where
  pub every_segment : Permᴰ (joined gs) segments
  pub in_order : Pairwise Before (joined gs)
  pub compact : All (Compact max_chars) gs

-- The chunks of a transcript are those of groups that hold each segment exactly once, in the order of
-- the sequence numbers; in each group one speaker speaks, no gap is over 1500 ms, and the texts
-- have at most `max_chars` characters in all, unless the group is a single segment.
pub chunk_segments_lem :
    (max_chars : ℕ) (segments : List Segment)
    → (gs : List Group) × (chunk_segments max_chars segments ≡ map chunk_of gs)
      × IsCut max_chars segments gs
unfolding chunk_segments
chunk_segments_lem max_chars segments =
    let ordered = by_sequence segments in
    (
      groups max_chars ordered,
      refl,
      record {
        every_segment = rw (groups-joined max_chars ordered) (by_sequence-Perm segments);
        in_order = rw (groups-joined max_chars ordered) (by_sequence_ordered segments);
        compact = groups-Compact max_chars ordered;
      },
    )
