-- ===== src/Api/Calls.antt =====
-- app/api/v1/calls.py: the handlers that process, reanalyse and cancel a call, and that correct its
-- speakers. The call is there: for one that is not, each raises `NotFoundError` first.
pub mod Cancel
pub mod Reanalyze
pub mod Speakers
use deal_truth_api.Prelude.{
  ℕ, Bool, true, false, not, ◌&&◌, ◌||◌, Option, none, some, List, [], ◌∷◌, String, Text, keep,
  first, map, ◌==◌, if◌then◌else◌,
}
use deal_truth_api.Core.Enums.{
  CallStatus, created, queued, transcribing, waiting_for_recap, analyzing, shipped, partial, failed,
  cancelled, EventState, SpeakerRole, InsightType, same_status, same_type, is_terminal,
}
use deal_truth_api.Core.Errors.{Exception, named, ErrorClass, RequestError, StorageError}
use deal_truth_api.Intelligence.Domain.{ValidatedInsight}
use deal_truth_api.Pipeline.State.{CallState}
use deal_truth_api.Pipeline.Session.{SpeakerRow, SegmentRow, AnalysisRun}
use deal_truth_api.Pipeline.Persist.{ordered_rows}
use deal_truth_api.Api.Site.{
  Rows, AudioAsset, Handler, ◌>>=◌, ◌>>◌, pure, raise, gets, modify, commit, enqueue_process,
  move_to, log_event,
}

abbrev pub conflict : String → Exception
conflict message = named (ErrorClass.request RequestError.conflict_error) message

-- The columns of `_detail` that change.
abbrev pub detail : Handler CallState
detail = gets (λ r. r.db.call)

abbrev pub status_now : Handler CallStatus
status_now = gets (λ r. r.db.call.status)

unfoldable pub when : Bool → Handler Unit → Handler Unit
when true h = h
when false h = pure tt

abbrev pub no_audio : List AudioAsset → Bool
no_audio [] = true
no_audio (a ∷ rest) = false

unfoldable pub check_process : Rows → Handler Unit
check_process r =
    if same_status r.db.call.status cancelled
    then raise (conflict "Call is cancelled")
    else if no_audio r.assets
    then raise (
        named (ErrorClass.storage StorageError.invalid_audio)
          "Upload audio or provide a source URL before processing")
    else pure tt

unfoldable pub process_call : ℕ → Handler CallState
unfolding check_process when
process_call now =
    gets (λ r. r)
    >>= check_process
    >> (status_now >>= λ s. when (same_status s created) (move_to now queued))
    >> (status_now >>= λ s. when (same_status s queued) (log_event "queued" EventState.succeeded))
    >> commit
    >> enqueue_process
    >> detail

-- `status in {QUEUED, TRANSCRIBING, WAITING_FOR_RECAP, ANALYZING}`
unfoldable pub is_in_flight : CallStatus → Bool
is_in_flight queued = true
is_in_flight transcribing = true
is_in_flight waiting_for_recap = true
is_in_flight analyzing = true
is_in_flight _ = false

-- `status in {SHIPPED, PARTIAL, FAILED}`
unfoldable pub is_done : CallStatus → Bool
is_done shipped = true
is_done partial = true
is_done failed = true
is_done _ = false

abbrev pub no_segments : List SegmentRow → Bool
no_segments [] = true
no_segments (s ∷ rest) = false

abbrev pub restart : ℕ → CallStatus → Handler CallState
restart now target = move_to now target >> commit >> enqueue_process >> detail

unfoldable pub reanalyze_at : ℕ → Rows → Handler CallState
unfolding is_in_flight is_done
reanalyze_at now r =
    if is_in_flight r.db.call.status
    then enqueue_process >> detail
    else if same_status r.db.call.status failed && no_segments r.db.segments
    then restart now queued
    else if not (is_done r.db.call.status)
    then raise (conflict "Call is not ready to reanalyze")
    else restart now analyzing

unfoldable pub reanalyze_call : ℕ → Handler CallState
unfolding reanalyze_at
reanalyze_call now = gets (λ r. r) >>= reanalyze_at now

unfoldable pub cancel_at : ℕ → CallStatus → Handler CallState
cancel_at now s =
    if is_terminal s && not (same_status s failed)
    then (if same_status s cancelled then detail else raise (conflict "Call already finished"))
    else (move_to now cancelled >> log_event "cancel" EventState.succeeded >> detail)

unfoldable pub cancel_call : ℕ → Handler CallState
unfolding cancel_at
cancel_call now = status_now >>= cancel_at now

-- `SpeakerPatch`
pub record SpeakerPatch : Type 0 where
  pub speaker_id : ℕ
  pub swap_with : Option ℕ
  pub role : Option SpeakerRole
  pub display_name : Option Text

unfoldable pub speaker_by_id : ℕ → List SpeakerRow → Option SpeakerRow
speaker_by_id i = first (λ (row : SpeakerRow). row.id == i)

-- A row with what a person says of it.
unfoldable pub overridden : SpeakerRole → Option Text → SpeakerRow → SpeakerRow
overridden role name row = record row {
  role = role;
  display_name = name;
  manually_overridden = true;
}

unfoldable pub set_row : ℕ → SpeakerRole → Option Text → List SpeakerRow → List SpeakerRow
unfolding overridden
set_row i role name =
    map (λ (row : SpeakerRow). if row.id == i then overridden role name row else row)

abbrev or_kept : {A : Type 0} → Option A → A → A
or_kept none old = old
or_kept (some new) old = new

abbrev or_kept_name : Option Text → Option Text → Option Text
or_kept_name none old = old
or_kept_name (some new) old = some new

abbrev pub speaker_missing : Exception
speaker_missing = named (ErrorClass.request RequestError.not_found_error) "Speaker not found"

-- The speakers after the patch, or `none` where a speaker is not one of the call.
unfoldable pub swapped : SpeakerRow → Option SpeakerRow → List SpeakerRow → Option (List SpeakerRow)
unfolding set_row
swapped speaker none rows = none
swapped speaker (some partner) rows = some (
    set_row speaker.id partner.role partner.display_name
      (set_row partner.id speaker.role speaker.display_name rows))

unfoldable pub patched_row :
    SpeakerPatch → SpeakerRow → Option ℕ → List SpeakerRow → Option (List SpeakerRow)
unfolding swapped speaker_by_id
patched_row body speaker (some other_id) rows = swapped speaker (speaker_by_id other_id rows) rows
patched_row body speaker none rows = some (
    set_row speaker.id (or_kept body.role speaker.role)
      (or_kept_name body.display_name speaker.display_name) rows)

unfoldable pub patched_from :
    SpeakerPatch → Option SpeakerRow → List SpeakerRow → Option (List SpeakerRow)
unfolding patched_row
patched_from body none rows = none
patched_from body (some speaker) rows = patched_row body speaker body.swap_with rows

unfoldable pub patched_rows : SpeakerPatch → List SpeakerRow → Option (List SpeakerRow)
unfolding patched_from speaker_by_id
patched_rows body rows = patched_from body (speaker_by_id body.speaker_id rows) rows

-- `insight.type.value in {"CUSTOMER_FACT", "SENTIMENT_POINT"}`
unfoldable pub is_voiced : ValidatedInsight → Bool
is_voiced i =
    same_type i.type InsightType.customer_fact || same_type i.type InsightType.sentiment_point

-- The insights that depend on who speaks are deleted from every run.
unfoldable pub without_voiced : List AnalysisRun → List AnalysisRun
unfolding is_voiced
without_voiced = map (λ (run : AnalysisRun). record run {
  insights = keep (λ (i : ValidatedInsight). not (is_voiced i)) run.insights;
})

-- A row of `SegmentOut`.
pub record SegmentOut : Type 0 where
  pub id : ℕ
  pub speaker_id : Option ℕ
  pub speaker_role : Option SpeakerRole
  pub start_ms : ℕ
  pub end_ms : ℕ
  pub text : Text
  pub sequence_number : ℕ

pub record TranscriptOut : Type 0 where
  pub language : Option String
  pub duration_ms : Option ℕ
  pub speakers : List SpeakerRow
  pub segments : List SegmentOut

abbrev role_in : Option SpeakerRow → Option SpeakerRole
role_in none = none
role_in (some row) = some row.role

unfoldable pub role_out : List SpeakerRow → Option ℕ → Option SpeakerRole
unfolding speaker_by_id
role_out rows none = none
role_out rows (some i) = role_in (speaker_by_id i rows)

unfoldable pub segment_out : List SpeakerRow → SegmentRow → SegmentOut
unfolding role_out
segment_out rows seg = record {
  id = seg.id;
  speaker_id = seg.speaker_id;
  speaker_role = role_out rows seg.speaker_id;
  start_ms = seg.start_ms;
  end_ms = seg.end_ms;
  text = seg.text;
  sequence_number = seg.sequence_number;
}

unfoldable pub transcript_out : Rows → TranscriptOut
unfolding segment_out
transcript_out r = record {
  language = r.db.language;
  duration_ms = r.db.duration_ms;
  speakers = r.db.speakers;
  segments = map (segment_out r.db.speakers) (ordered_rows r.db.segments);
}

abbrev pub get_transcript : Handler TranscriptOut
get_transcript = gets transcript_out

unfoldable pub store_speakers : Option (List SpeakerRow) → Handler Unit
store_speakers none = raise speaker_missing
store_speakers (some rows) =
    modify (λ r. record r { db = record r.db { speakers = rows; runs = without_voiced r.db.runs } })

unfoldable pub patch_speakers : ℕ → SpeakerPatch → Handler TranscriptOut
unfolding patched_rows store_speakers is_done when
patch_speakers now body =
    gets (λ r. patched_rows body r.db.speakers)
    >>= store_speakers
    >> (status_now >>= λ s. when (is_done s) (move_to now analyzing))
    >> commit
    >> enqueue_process
    >> get_transcript
