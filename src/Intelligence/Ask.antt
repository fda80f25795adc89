-- ===== src/Intelligence/Ask.antt =====
-- app/intelligence/ask.py: how a transcript is cut into chunks for retrieval.
pub mod Chunks
use deal_truth_api.Prelude.{
  ℕ, ◌+◌, Bool, true, false, ◌&&◌, Option, none, some, List, [], ◌∷◌, ◌++◌, Text, length, map, leb,
  ltb, ◌==◌, if◌then◌else◌,
}
use deal_truth_api.Intelligence.Domain.{Segment}
use deal_truth_api.Intelligence.Speakers.{join_spaces}

-- A group of segments that becomes one chunk; it is never empty.
pub record Group : Type 0 where
  pub head : Segment
  pub tail : List Segment

abbrev pub members : Group → List Segment
members g = g.head ∷ g.tail

unfoldable pub last_of : Segment → List Segment → Segment
last_of s [] = s
last_of s (t ∷ rest) = last_of t rest

unfoldable pub last_in : Group → Segment
unfolding last_of
last_in g = last_of g.head g.tail

-- `sorted(segments, key=lambda s: s.sequence_number)`, equal numbers in their order.
unfoldable pub insert_by_sequence : Segment → List Segment → List Segment
insert_by_sequence s [] = s ∷ []
insert_by_sequence s (t ∷ rest) =
    if ltb t.sequence_number s.sequence_number then t ∷ insert_by_sequence s rest else s ∷ t ∷ rest

unfoldable pub by_sequence : List Segment → List Segment
unfolding insert_by_sequence
by_sequence [] = []
by_sequence (s ∷ rest) = insert_by_sequence s (by_sequence rest)

unfoldable pub same_id : Option ℕ → Option ℕ → Bool
same_id none none = true
same_id (some a) (some b) = a == b
same_id _ _ = false

unfoldable pub total_chars : List Segment → ℕ
total_chars [] = 0
total_chars (s ∷ rest) = length s.text + total_chars rest

-- `same and gap <= _GAP_MS and size <= max_chars`; the gap may be negative.
unfoldable pub fits : ℕ → Group → Segment → Bool
unfolding same_id total_chars
fits max_chars g seg =
    same_id (last_in g).speaker_id seg.speaker_id
    && (leb seg.start_ms ((last_in g).end_ms + 1500)
        && leb (total_chars (members g) + length seg.text) max_chars)

-- The loop, with the group `current`.
unfoldable pub group_from : ℕ → Group → List Segment → List Group
group_from max_chars g [] = g ∷ []
group_from max_chars g (seg ∷ segs) = elim (fits max_chars g seg) [
  | true ↦ group_from max_chars (record { head = g.head; tail = g.tail ++ seg ∷ [] }) segs
  | false ↦ g ∷ group_from max_chars (record { head = seg; tail = [] }) segs
]

unfoldable pub groups : ℕ → List Segment → List Group
groups max_chars [] = []
groups max_chars (seg ∷ segs) = group_from max_chars (record { head = seg; tail = [] }) segs

pub record Chunk : Type 0 where
  pub start_segment_id : ℕ
  pub end_segment_id : ℕ
  pub segment_ids : List ℕ
  pub text : Text
  pub start_ms : ℕ
  pub end_ms : ℕ

unfoldable pub chunk_of : Group → Chunk
chunk_of g = record {
  start_segment_id = g.head.id;
  end_segment_id = (last_in g).id;
  segment_ids = map (λ (s : Segment). s.id) (members g);
  text = join_spaces (map (λ (s : Segment). s.text) (members g));
  start_ms = g.head.start_ms;
  end_ms = (last_in g).end_ms;
}

unfoldable pub chunk_segments : ℕ → List Segment → List Chunk
chunk_segments max_chars segments = map chunk_of (groups max_chars (by_sequence segments))
