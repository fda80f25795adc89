-- ===== src/Intelligence/Metrics.antt =====
-- app/intelligence/metrics.py: the metrics of a call. A ratio and a rate are numbers of ten-thousandths,
-- rounded to a whole one, half to even, as `round(x, 4)` does of the exact quotient.
pub mod Monologues
pub mod Talk
use deal_truth_api.Prelude.{
  ℕ, ◌+◌, ◌-◌, ◌*◌, ◌/◌, ◌%◌, zero, suc, max, Bool, true, false, not, ◌&&◌, ◌||◌, Option, none,
  some, List, [], ◌∷◌, ◌++◌, String, Text, codes, any, map, drop, length, first, ltb, leb, ◌==◌,
  lower, strip, contains, starts_with, if◌then◌else◌,
}
use deal_truth_api.Core.Enums.{SpeakerRole, same_role}
use deal_truth_api.Intelligence.Domain.{Segment}
use deal_truth_api.Intelligence.Ask.{same_id}

-- The key `(start_ms, sequence_number)`.
unfoldable pub earlier : Segment → Segment → Bool
earlier s t =
    ltb s.start_ms t.start_ms
    || (s.start_ms == t.start_ms && ltb s.sequence_number t.sequence_number)

unfoldable pub insert_ordered : Segment → List Segment → List Segment
unfolding earlier
insert_ordered s [] = s ∷ []
insert_ordered s (t ∷ rest) = if earlier t s then t ∷ insert_ordered s rest else s ∷ t ∷ rest

-- `sorted(segments, key=...)`
unfoldable pub in_order : List Segment → List Segment
unfolding insert_ordered
in_order [] = []
in_order (s ∷ rest) = insert_ordered s (in_order rest)

-- A number for each role.
pub record ByRole : Type 0 where
  pub seller : ℕ
  pub customer : ℕ
  pub unknown : ℕ

unfoldable pub add_role : SpeakerRole → ℕ → ByRole → ByRole
add_role SpeakerRole.seller n b = record b { seller = b.seller + n }
add_role SpeakerRole.customer n b = record b { customer = b.customer + n }
add_role SpeakerRole.unknown n b = record b { unknown = b.unknown + n }

abbrev pub no_one : ByRole
no_one = record { seller = 0; customer = 0; unknown = 0 }

-- `max(0, seg.end_ms - seg.start_ms)`
unfoldable pub spoken_ms : Segment → ℕ
spoken_ms s = s.end_ms - s.start_ms

unfoldable pub speaking_from : ByRole → List Segment → ByRole
unfolding add_role spoken_ms
speaking_from b [] = b
speaking_from b (s ∷ rest) = speaking_from (add_role s.speaker_role (spoken_ms s) b) rest

unfoldable pub total_of : ByRole → ℕ
total_of b = b.seller + b.customer + b.unknown

-- `round(a / b, 0)` of whole numbers, half to even.
unfoldable pub rounded : ℕ → ℕ → ℕ
rounded a b =
    let q = a / b in
    let r = a % b in
    if ltb (2 * r) b then q else if ltb b (2 * r) then q + 1 else if q % 2 == 0 then q else q + 1

-- `sum(speaking.values()) or 1`
abbrev or_one : ℕ → ℕ
or_one zero = 1
or_one (suc n) = suc n

pub record TalkRatio : Type 0 where
  pub ratio : ByRole
  pub total_speaking_ms : ℕ
  pub by_role_ms : ByRole

unfoldable pub talk_ratio : ByRole → TalkRatio
unfolding total_of rounded
talk_ratio b =
    let total = or_one (total_of b) in
    record {
      ratio = record {
        seller = rounded (b.seller * 10000) total;
        customer = rounded (b.customer * 10000) total;
        unknown = rounded (b.unknown * 10000) total;
      };
      total_speaking_ms = total_of b;
      by_role_ms = b;
    }

-- A run of segments, the first and the others.
pub record Run : Type 0 where
  pub head : Segment
  pub tail : List Segment

unfoldable pub last_segment : Segment → List Segment → Segment
last_segment s [] = s
last_segment s (t ∷ rest) = last_segment t rest

unfoldable pub run_members : Run → List Segment
run_members r = r.head ∷ r.tail

-- `run[-1].end_ms - run[0].start_ms`; a difference below 0 is 0, which is above no duration either.
unfoldable pub run_ms : Run → ℕ
unfolding last_segment
run_ms r = (last_segment r.head r.tail).end_ms - r.head.start_ms

pub record Monologue : Type 0 where
  pub duration_ms : ℕ
  pub speaker_role : Option SpeakerRole
  pub start_ms : Option ℕ
  pub end_ms : Option ℕ
  pub segment_ids : List ℕ

abbrev pub no_monologue : Monologue
no_monologue = record {
  duration_ms = 0;
  speaker_role = none;
  start_ms = none;
  end_ms = none;
  segment_ids = [];
}

unfoldable pub monologue_of : Run → Monologue
unfolding run_ms run_members last_segment
monologue_of r = record {
  duration_ms = run_ms r;
  speaker_role = some r.head.speaker_role;
  start_ms = some r.head.start_ms;
  end_ms = some (last_segment r.head r.tail).end_ms;
  segment_ids = map (λ (s : Segment). s.id) (run_members r);
}

unfoldable pub maybe_best : Monologue → Run → Monologue
unfolding monologue_of run_ms
maybe_best best r = if ltb best.duration_ms (run_ms r) then monologue_of r else best

abbrev pub monologue_gap_ms : ℕ
monologue_gap_ms = 500

-- `same and gap <= MONOLOGUE_GAP_MS`
unfoldable pub joins : Run → Segment → Bool
unfolding same_id last_segment
joins r seg =
    let prev = last_segment r.head r.tail in
    same_id seg.speaker_id prev.speaker_id
    && same_role seg.speaker_role prev.speaker_role
    && leb seg.start_ms (prev.end_ms + monologue_gap_ms)

unfoldable pub longest_from : Monologue → Run → List Segment → Monologue
unfolding maybe_best joins
longest_from best run [] = maybe_best best run
longest_from best run (seg ∷ rest) =
    longest_from (if joins run seg then best else maybe_best best run)
      (if joins run seg
        then record run { tail = run.tail ++ seg ∷ [] }
        else record { head = seg; tail = [] })
      rest

unfoldable pub longest_monologue : List Segment → Monologue
unfolding longest_from
longest_monologue [] = no_monologue
longest_monologue (s ∷ rest) = longest_from no_monologue (record { head = s; tail = [] }) rest

abbrev cues : List String
cues =
    "who" ∷ "what" ∷ "when" ∷ "where" ∷ "why" ∷ "how" ∷ "do" ∷ "does" ∷ "did" ∷ "can" ∷ "could"
    ∷ "would" ∷ "will" ∷ "is" ∷ "are" ∷ "may" ∷ "might" ∷ []

-- `\w`, on the ASCII characters.
unfoldable pub is_word : ℕ → Bool
is_word c =
    (leb b'a' c && leb c b'z')
    || (leb b'A' c && leb c b'Z')
    || (leb b'0' c && leb c b'9')
    || c == b'_'

-- The rest of a text after the cue begins no further letter of a word.
unfoldable pub at_boundary : Text → Bool
unfolding is_word
at_boundary [] = true
at_boundary (c ∷ s) = not (is_word c)

-- `_INTERROGATIVE.match(text)`
unfoldable pub is_interrogative : Text → Bool
unfolding at_boundary
is_interrogative t =
    any
      (λ (cue : String).
        starts_with (codes cue) (lower t) && at_boundary (drop (length (codes cue)) t))
      cues

unfoldable pub is_question : Segment → Bool
unfolding is_interrogative
is_question s = contains (codes "?") (strip s.text) || is_interrogative (strip s.text)

pub record Questions : Type 0 where
  pub count : ℕ
  pub per_speaker : ByRole

-- One segment of the loop.
unfoldable pub asked_by : Bool → Segment → Questions → Questions
unfolding add_role
asked_by false s q = q
asked_by true s q = record {
  count = q.count + 1;
  per_speaker = add_role s.speaker_role 1 q.per_speaker;
}

unfoldable pub questions_from : Questions → List Segment → Questions
unfolding is_question asked_by
questions_from q [] = q
questions_from q (s ∷ rest) = questions_from (asked_by (is_question s) s q) rest

-- A tracked term: its name and its aliases.
abbrev pub TrackedTerm : Type 0
TrackedTerm = Text × List Text

pub record KeywordHit : Type 0 where
  pub term : Text
  pub matched : Text
  pub segment_id : ℕ
  pub start_ms : ℕ
  pub end_ms : ℕ
  pub speaker_role : SpeakerRole

abbrev is_empty : Text → Bool
is_empty [] = true
is_empty (c ∷ s) = false

-- The first needle that the text of the segment has.
unfoldable pub needle_in : Segment → List Text → Option Text
needle_in seg =
    first (λ (needle : Text). not (is_empty needle) && contains (lower needle) (lower seg.text))

abbrev hit_at : Text → Segment → Option Text → List KeywordHit → List KeywordHit
hit_at term seg none rest = rest
hit_at term seg (some needle) rest =
    record {
      term = term;
      matched = needle;
      segment_id = seg.id;
      start_ms = seg.start_ms;
      end_ms = seg.end_ms;
      speaker_role = seg.speaker_role;
    }
    ∷ rest

unfoldable pub hits_of : TrackedTerm → List Segment → List KeywordHit
unfolding needle_in
hits_of (term, aliases) [] = []
hits_of (term, aliases) (seg ∷ rest) =
    hit_at term seg (needle_in seg (term ∷ aliases)) (hits_of (term, aliases) rest)

unfoldable pub keyword_hits : List Segment → List TrackedTerm → List KeywordHit
unfolding hits_of
keyword_hits segments [] = []
keyword_hits segments (t ∷ terms) = hits_of t segments ++ keyword_hits segments terms

pub record Gap : Type 0 where
  pub start_ms : ℕ
  pub end_ms : ℕ
  pub duration_ms : ℕ

abbrev pub silence_gap_ms : ℕ
silence_gap_ms = 2000

-- The pairs of neighbours, from the first segment.
unfoldable pub gaps_from : Segment → List Segment → List Gap
gaps_from prev [] = []
gaps_from prev (nxt ∷ rest) =
    let more = gaps_from nxt rest in
    if ltb (prev.end_ms + silence_gap_ms) nxt.start_ms
    then record {
      start_ms = prev.end_ms;
      end_ms = nxt.start_ms;
      duration_ms = nxt.start_ms - prev.end_ms;
    }
      ∷ more
    else more

unfoldable pub silence_gaps : List Segment → List Gap
unfolding gaps_from
silence_gaps [] = []
silence_gaps (s ∷ rest) = gaps_from s rest

unfoldable pub duration_of : Option ℕ → List Segment → ℕ
unfolding last_segment
duration_of (some n) ordered = n
duration_of none [] = 0
duration_of none (s ∷ rest) = (last_segment s rest).end_ms - s.start_ms

-- `round(count / max(duration / 60_000, 1 / 60), 4)`
unfoldable pub per_minute : ℕ → ℕ → ℕ
unfolding rounded
per_minute count duration = rounded (count * 60000 * 10000) (max duration 1000)

pub record CallMetrics : Type 0 where
  pub talk : TalkRatio
  pub longest : Monologue
  pub questions : Questions
  pub questions_per_minute : ℕ
  pub hits : List KeywordHit
  pub silences : List Gap
  pub duration_ms : ℕ

unfoldable pub compute_metrics : List Segment → Option ℕ → List TrackedTerm → CallMetrics
unfolding in_order speaking_from talk_ratio longest_monologue questions_from per_minute duration_of
    keyword_hits silence_gaps
compute_metrics segments duration_ms terms =
    let ordered = in_order segments in
    let questions = questions_from (record { count = 0; per_speaker = no_one }) ordered in
    let duration = duration_of duration_ms ordered in
    record {
      talk = talk_ratio (speaking_from no_one ordered);
      longest = longest_monologue ordered;
      questions = questions;
      questions_per_minute = per_minute questions.count duration;
      hits = keyword_hits ordered terms;
      silences = silence_gaps ordered;
      duration_ms = duration;
    }
