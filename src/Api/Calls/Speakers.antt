-- ===== src/Api/Calls/Speakers.antt =====
-- app/api/v1/calls.py: `patch_speakers`, and a later run of the pipeline.
pub mod Corrected
pub mod Corrections
use deal_truth_api.Prelude.{
  ℕ, ◌≡◌, refl, sym, subst, inl, inr, true, false, Option, none, some, List, [], ◌∷◌, ◌++◌, All,
  All-mem, Memᴰ, arith, if◌then◌else◌, ◌==◌, ==_iff, Bool-cases, Text,
}
use deal_truth_api.Core.Enums.{analyzing, SpeakerRole}
use deal_truth_api.Intelligence.Speakers.{Resolved}
use deal_truth_api.Providers.Normalized.{NormalizedTranscript}
use deal_truth_api.Pipeline.State.{transition, enter, is_allowed}
use deal_truth_api.Pipeline.Session.{SpeakerRow, Session, Result, ok, err}
use deal_truth_api.Pipeline.Persist.{persist_transcript}
use deal_truth_api.Pipeline.Persist.Stored.{persist_transcript_kept}
use deal_truth_api.Api.Site.{
  Rows, Site, ◌>>=◌, continue, pure, raise, gets, modify, entered, move_to, closed, request, commit,
  enqueue_process,
}
use deal_truth_api.Api.Calls.{
  SpeakerPatch, speaker_by_id, overridden, set_row, swapped, patched_row, patched_from,
  patched_rows, speaker_missing, without_voiced, TranscriptOut, transcript_out, store_speakers,
  patch_speakers, is_done, when,
}

-- The row of a speaker has been set by a person.
pub SetFor : ℕ → SpeakerRow → Type 0
SetFor i row = (row.id == i) ≡ true → row.manually_overridden ≡ true

set_row-SetFor :
    (i : ℕ) (role : SpeakerRole) (name : Option Text) (rows : List SpeakerRow)
    → All (SetFor i) (set_row i role name rows)
unfolding set_row SetFor overridden
set_row-SetFor i role name [] = tt
set_row-SetFor i role name (row ∷ rows) = (
  (λ e. elim (Bool-cases (row.id == i)) [ inl h ↦ ground arith | inr h ↦ ground arith ]),
  set_row-SetFor i role name rows,
)

abbrev Whenever : (List SpeakerRow → Type 0) → Option (List SpeakerRow) → Type 0
Whenever P none = Unit
Whenever P (some rows) = P rows

first_id :
    (i : ℕ) (rows : List SpeakerRow) (row : SpeakerRow)
    → speaker_by_id i rows ≡ some row
    → row.id ≡ i
unfolding speaker_by_id
first_id i [] row h = absurd (cc h)
first_id i (q ∷ rows) row h = elim (Bool-cases (q.id == i)) [
  | inl e ↦
      let same : some q ≡ some row = rw e at h in
      let at : q.id ≡ i = (==_iff q.id i).0 e in cc (same, at)
  | inr e ↦ first_id i rows row (rw e at h)
]

module _ (body : SpeakerPatch) (rows : List SpeakerRow) where
  swapped-SetFor :
      (speaker : SpeakerRow) (o : Option SpeakerRow)
      → Whenever (All (SetFor speaker.id)) (swapped speaker o rows)
  unfolding swapped
  swapped-SetFor speaker none = tt
  swapped-SetFor speaker (some partner) =
      set_row-SetFor speaker.id partner.role partner.display_name _

  patched_row-SetFor :
      (speaker : SpeakerRow) (swap : Option ℕ)
      → Whenever (All (SetFor speaker.id)) (patched_row body speaker swap rows)
  unfolding patched_row
  patched_row-SetFor speaker none = set_row-SetFor speaker.id _ _ rows
  patched_row-SetFor speaker (some i) = swapped-SetFor speaker (speaker_by_id i rows)

  patched_from-SetFor :
      (o : Option SpeakerRow)
      → speaker_by_id body.speaker_id rows ≡ o
      → Whenever (All (SetFor body.speaker_id)) (patched_from body o rows)
  unfolding patched_from
  patched_from-SetFor none h = tt
  patched_from-SetFor (some speaker) h =
      subst (λ i. Whenever (All (SetFor i)) (patched_row body speaker body.swap_with rows))
        (first_id body.speaker_id rows speaker h) (patched_row-SetFor speaker body.swap_with)

  patched_rows-SetFor :
      (after : List SpeakerRow)
      → patched_rows body rows ≡ some after
      → All (SetFor body.speaker_id) after
  unfolding patched_rows
  patched_rows-SetFor after h =
      subst (Whenever (All (SetFor body.speaker_id))) h (patched_from-SetFor _ refl)

-- The rows of a call whose speakers are corrected: the insights that depend on who speaks are gone from
-- every run, and a finished call is back to ANALYZING.
pub corrected : List SpeakerRow → Rows → Rows
corrected speakers r = record r {
  db = record r.db {
    speakers = speakers;
    runs = without_voiced r.db.runs;
    call = if is_done r.db.call.status then record r.db.call { status = analyzing } else r.db.call;
  };
}

-- What a correction does to a site, by the speakers that it gives.
pub Changes : Option (List SpeakerRow) → Site → Result TranscriptOut × Site → Type 0
Changes none s (r, t) = (r ≡ err speaker_missing) × (t ≡ s)
Changes (some rows) s (r, t) =
    (r ≡ ok (transcript_out (corrected rows s.live)))
    × (t ≡ record s {
      committed = corrected rows s.live;
      live = corrected rows s.live;
      queue = s.queue ++ corrected rows s.live ∷ [];
    })

module _ (now : ℕ) (body : SpeakerPatch) (s : Site) (h : s.committed ≡ s.live) where
  correct_none :
      patched_rows body s.live.db.speakers ≡ none
      → Changes none s (request (patch_speakers now body) s)
  unfolding Changes request closed patch_speakers store_speakers ◌>>=◌ continue gets raise
  correct_none e = (ground arith, ground arith)

  correct_done :
      (rows : List SpeakerRow)
      → patched_rows body s.live.db.speakers ≡ some rows
      → is_done s.live.db.call.status ≡ true
      → Changes (some rows) s (request (patch_speakers now body) s)
  unfolding Changes corrected request closed patch_speakers store_speakers when ◌>>=◌ continue gets
      modify pure move_to entered transition enter is_allowed commit enqueue_process is_done
  correct_done rows e d = (ground arith, ground arith)

  correct_open :
      (rows : List SpeakerRow)
      → patched_rows body s.live.db.speakers ≡ some rows
      → is_done s.live.db.call.status ≡ false
      → Changes (some rows) s (request (patch_speakers now body) s)
  unfolding Changes corrected request closed patch_speakers store_speakers when ◌>>=◌ continue gets
      modify pure commit enqueue_process
  correct_open rows e d = (ground arith, ground arith)

  correction :
      (o : Option (List SpeakerRow))
      → patched_rows body s.live.db.speakers ≡ o
      → Changes o s (request (patch_speakers now body) s)
  correction none e = correct_none e
  correction (some rows) e = elim (Bool-cases (is_done s.live.db.call.status)) [
    | inl d ↦ correct_done rows e d
    | inr d ↦ correct_open rows e d
  ]

-- Where a correction of a speaker is stored, a later run that stores a transcript, whatever speakers it
-- resolves, keeps the corrected row as it is.
pub patched_rows_kept :
    (body : SpeakerPatch) (before after : List SpeakerRow) (row : SpeakerRow)
    (t : NormalizedTranscript) (resolved : List Resolved) (s : Session)
    → patched_rows body before ≡ some after
    → Memᴰ row after
    → row.id ≡ body.speaker_id
    → s.live.speakers ≡ after
    → Memᴰ row (persist_transcript t resolved s).1.live.speakers
patched_rows_kept body before after row t resolved s p m i stored =
    persist_transcript_kept t resolved s row (subst (Memᴰ row) (sym stored) m) (
      unfold SetFor in
      All-mem (SetFor body.speaker_id) after (patched_rows-SetFor body before after p) m
        ((==_iff row.id body.speaker_id).1 i))
