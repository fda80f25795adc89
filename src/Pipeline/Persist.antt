-- ===== src/Pipeline/Persist.antt =====
-- app/pipeline/persist.py: what a run writes to the database, and what it reads back.
pub mod Stored
pub mod Versions
use deal_truth_api.Prelude.{
  ℕ, ◌+◌, suc, false, not, Option, none, some, List, [], ◌∷◌, ◌++◌, String, Text, same_text, keep,
  map, length, max, ltb, ◌==◌, if◌then◌else◌,
}
use deal_truth_api.Core.Enums.{SpeakerRole}
use deal_truth_api.Core.Errors.{Exception, named, ErrorClass, MlError}
use deal_truth_api.Intelligence.Domain.{Segment, ValidatedInsight}
use deal_truth_api.Intelligence.Speakers.{Resolved}
use deal_truth_api.Intelligence.Ask.{Chunk}
use deal_truth_api.Providers.Normalized.{NormalizedSegment, NormalizedTranscript}
use deal_truth_api.Pipeline.Session.{
  SpeakerRow, SegmentRow, AnalysisRun, Db, ok, Exec, ◌>>◌, modify, pure, raise,
}

-- `order_by(sequence_number.asc())`
unfoldable pub insert_row : SegmentRow → List SegmentRow → List SegmentRow
insert_row r [] = r ∷ []
insert_row r (q ∷ rest) =
    if ltb q.sequence_number r.sequence_number then q ∷ insert_row r rest else r ∷ q ∷ rest

unfoldable pub ordered_rows : List SegmentRow → List SegmentRow
unfolding insert_row
ordered_rows [] = []
ordered_rows (r ∷ rest) = insert_row r (ordered_rows rest)

-- The role of the speaker of a segment; UNKNOWN where there is none.
unfoldable pub role_by_id : List SpeakerRow → Option ℕ → SpeakerRole
role_by_id rows none = SpeakerRole.unknown
role_by_id [] (some i) = SpeakerRole.unknown
role_by_id (row ∷ rows) (some i) = if row.id == i then row.role else role_by_id rows (some i)

unfoldable pub view_of : List SpeakerRow → SegmentRow → Segment
view_of speakers r = record {
  id = r.id;
  provider_segment_id = r.provider_segment_id;
  speaker_id = r.speaker_id;
  speaker_role = role_by_id speakers r.speaker_id;
  start_ms = r.start_ms;
  end_ms = r.end_ms;
  text = r.text;
  sequence_number = r.sequence_number;
  labels = [];
  emotions = [];
}

unfoldable pub load_segment_views : Db → List Segment
unfolding view_of
load_segment_views d = map (view_of d.speakers) (ordered_rows d.segments)

-- `if display: row.display_name = display`
unfoldable pub new_name : Option Text → Option Text → Option Text
new_name (some (c ∷ s)) old = some (c ∷ s)
new_name _ old = old

-- What a resolved speaker changes in its row: nothing if a person has set the role.
unfoldable pub refresh_row : SpeakerRow → Resolved → SpeakerRow
unfolding new_name
refresh_row row r = if row.manually_overridden then row else record row {
  role = r.role;
  confidence = r.confidence;
  display_name = new_name r.display_name row.display_name;
}

unfoldable pub new_row : ℕ → Resolved → SpeakerRow
new_row fresh r = record {
  id = fresh;
  provider_speaker_id = r.speaker.provider_speaker_id;
  role = r.role;
  display_name = r.display_name;
  confidence = r.confidence;
  channel = r.speaker.channel;
  manually_overridden = false;
}

-- The row of the resolved speaker is refreshed, or added under the id `fresh`.
unfoldable pub upsert : ℕ → List SpeakerRow → Resolved → List SpeakerRow
unfolding new_row
upsert fresh [] r = new_row fresh r ∷ []
upsert fresh (row ∷ rows) r =
    if same_text row.provider_speaker_id r.speaker.provider_speaker_id
    then refresh_row row r ∷ rows
    else row ∷ upsert fresh rows r

unfoldable pub upsert_all : ℕ → List SpeakerRow → List Resolved → List SpeakerRow
upsert_all fresh rows [] = rows
upsert_all fresh rows (r ∷ rest) = upsert_all (suc fresh) (upsert fresh rows r) rest

-- `by_provider.get(seg.provider_speaker_id)`
unfoldable pub provider_row : List SpeakerRow → Text → Option SpeakerRow
provider_row [] i = none
provider_row (row ∷ rows) i =
    if same_text row.provider_speaker_id i then some row else provider_row rows i

-- `speaker_row.id if speaker_row else None`
abbrev pub speaker_id_of : Option SpeakerRow → Option ℕ
speaker_id_of none = none
speaker_id_of (some row) = some row.id

-- `speaker_row.role if speaker_row else SpeakerRole.UNKNOWN`
abbrev pub speaker_role_of : Option SpeakerRow → SpeakerRole
speaker_role_of none = SpeakerRole.unknown
speaker_role_of (some row) = row.role

-- `enumerate(transcript.segments)`, with a new id for each row.
unfoldable pub segment_rows : ℕ → ℕ → List SpeakerRow → List NormalizedSegment → List SegmentRow
unfolding provider_row
segment_rows fresh index speakers [] = []
segment_rows fresh index speakers (seg ∷ rest) =
    record {
      id = fresh;
      provider_segment_id = seg.provider_segment_id;
      speaker_id = speaker_id_of (provider_row speakers seg.provider_speaker_id);
      start_ms = seg.start_ms;
      end_ms = seg.end_ms;
      text = seg.text;
      sequence_number = index;
    }
    ∷ segment_rows (suc fresh) (suc index) speakers rest

-- The `views` of the same loop, with the ids of the new rows.
unfoldable pub segment_views : ℕ → ℕ → List SpeakerRow → List NormalizedSegment → List Segment
unfolding provider_row
segment_views fresh index speakers [] = []
segment_views fresh index speakers (seg ∷ rest) =
    let speaker_row = provider_row speakers seg.provider_speaker_id in
    record {
      id = fresh;
      provider_segment_id = seg.provider_segment_id;
      speaker_id = speaker_id_of speaker_row;
      speaker_role = speaker_role_of speaker_row;
      start_ms = seg.start_ms;
      end_ms = seg.end_ms;
      text = seg.text;
      sequence_number = index;
      labels = [];
      emotions = [];
    }
    ∷ segment_views (suc fresh) (suc index) speakers rest

unfoldable pub or_old : {A : Type 0} → Option A → Option A → Option A
or_old (some a) old = some a
or_old none old = old

-- `transcript.duration_ms or call.duration_ms`: a duration of 0 counts as none.
unfoldable pub or_old_duration : Option ℕ → Option ℕ → Option ℕ
or_old_duration (some (suc n)) old = some (suc n)
or_old_duration _ old = old

unfoldable pub stored_transcript : ℕ → NormalizedTranscript → List Resolved → Db → Db
unfolding segment_rows or_old or_old_duration
stored_transcript fresh t resolved d =
    let rows = upsert_all fresh d.speakers resolved in
    record d {
      speakers = rows;
      segments = segment_rows (fresh + length resolved) 0 rows t.segments;
      language = or_old t.language d.language;
      duration_ms = or_old_duration t.duration_ms d.duration_ms;
    }

unfoldable pub persist_transcript : NormalizedTranscript → List Resolved → Exec (List Segment)
unfolding stored_transcript segment_views
persist_transcript t resolved s =
    let d = stored_transcript s.fresh t resolved s.live in
    (
      ok (segment_views (s.fresh + length resolved) 0 d.speakers t.segments),
      record s { live = d; fresh = s.fresh + length resolved + length t.segments },
    )

unfoldable pub max_version : List AnalysisRun → ℕ
max_version [] = 0
max_version (r ∷ runs) = max r.version (max_version runs)

-- `max(current) + 1 if current else 1`
unfoldable pub next_run_version : List AnalysisRun → ℕ
unfolding max_version
next_run_version [] = 1
next_run_version (r ∷ runs) = max_version (r ∷ runs) + 1

-- A dropped insight becomes a refused claim, any other an insight with its evidence links.
unfoldable pub run_of : List AnalysisRun → List ValidatedInsight → List String → AnalysisRun
run_of runs insights warnings = record {
  version = next_run_version runs;
  insights = keep (λ (i : ValidatedInsight). not i.dropped) insights;
  refused_claims = keep (λ (i : ValidatedInsight). i.dropped) insights;
  warnings = warnings;
}

unfoldable pub persist_insights : List ValidatedInsight → Exec Unit
persist_insights insights s =
    modify (λ d. record d { runs = d.runs ++ run_of d.runs insights s.warnings ∷ [] }) s

-- `EmbeddingVector.dim`
abbrev pub embedding_dim : ℕ
embedding_dim = 1024

abbrev pub Vector : Type 0
Vector = List ℕ

abbrev pub bad_dimension : Exception
bad_dimension =
    named (ErrorClass.ml MlError.response_invalid)
      "ML embedding dimension does not match the database column"

-- The loop over `zip(chunks, embeddings)`: the rest is left out where one list is shorter.
unfoldable pub add_chunks : List Chunk → List Vector → Exec Unit
add_chunks (chunk ∷ chunks) (vector ∷ vectors) =
    let rest : Exec Unit = add_chunks chunks vectors in
    if not (length vector == embedding_dim)
    then raise bad_dimension
    else (modify (λ d. record d { chunks = d.chunks ++ chunk ∷ [] }) >> rest)
add_chunks _ _ = pure tt

unfoldable pub persist_chunks : List Chunk → List Vector → Exec Unit
persist_chunks chunks vectors = modify (λ d. record d { chunks = [] }) >> add_chunks chunks vectors
