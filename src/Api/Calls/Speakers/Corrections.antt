-- ===== src/Api/Calls/Speakers/Corrections.antt =====
-- app/api/v1/calls.py: `patch_speakers` as a whole, and what it corrects.
use deal_truth_api.Prelude.{
  ℕ, ◌≡◌, refl, ap, sym, subst, ◌∙◌, Bool, true, false, not, Option, none, some, List, [], ◌∷◌,
  ◌++◌, arith, map, keep, if◌then◌else◌,
}
use deal_truth_api.Core.Enums.{
  CallStatus, analyzing, shipped, partial, failed, InsightType, customer_fact, sentiment_point,
}
use deal_truth_api.Intelligence.Domain.{ValidatedInsight}
use deal_truth_api.Pipeline.State.{CallState}
use deal_truth_api.Pipeline.Session.{SpeakerRow, AnalysisRun, Result, ok, err}
use deal_truth_api.Api.Site.{Rows, Site, request}
use deal_truth_api.Api.Calls.{
  SpeakerPatch, patched_rows, speaker_missing, without_voiced, is_voiced, TranscriptOut,
  transcript_out, patch_speakers, is_done,
}
use deal_truth_api.Api.Calls.Speakers.{corrected, correction, Changes}
use deal_truth_api.Api.Calls.Speakers.Corrected.{Corrects, Missing, Outcome, patched_rows-Outcome}

-- The insights that do not depend on who the customer is.
pub stays : InsightType → Bool
stays customer_fact = false
stays sentiment_point = false
stays _ = true

pub purged : List AnalysisRun → List AnalysisRun
purged = map (λ (run : AnalysisRun). record run {
  insights = keep (λ (i : ValidatedInsight). stays i.type) run.insights;
})

-- A finished call is analysed again, and any other goes on as it is.
pub status_after : CallStatus → CallStatus
status_after shipped = analyzing
status_after partial = analyzing
status_after failed = analyzing
status_after s = s

-- The rows of the call once the speakers are corrected.
pub rows_after : List SpeakerRow → Rows → Rows
rows_after speakers r = record r {
  db = record r.db {
    speakers = speakers;
    runs = purged r.db.runs;
    call = record r.db.call { status = status_after r.db.call.status };
  };
}

is_voiced-stays : (i : ValidatedInsight) → not (is_voiced i) ≡ stays i.type
unfolding is_voiced stays
is_voiced-stays i = ground arith

keep_same :
    (p q : ValidatedInsight → Bool) (xs : List ValidatedInsight)
    → ((i : ValidatedInsight) → p i ≡ q i)
    → keep p xs ≡ keep q xs
keep_same p q [] h = refl
keep_same p q (x ∷ xs) h = rw (h x, keep_same p q xs h) refl

without_voiced-purged : (runs : List AnalysisRun) → without_voiced runs ≡ purged runs
unfolding without_voiced purged
without_voiced-purged [] = refl
without_voiced-purged (run ∷ runs) =
    rw (keep_same _ _ run.insights is_voiced-stays, without_voiced-purged runs) refl

is_done-status_after : (s : CallStatus) → (if is_done s then analyzing else s) ≡ status_after s
unfolding is_done status_after
is_done-status_after s = ground arith

analyzed_again :
    (c : CallState)
    → (if is_done c.status then record c { status = analyzing } else c)
      ≡ record c { status = status_after c.status }
analyzed_again c =
    elim (is_done c.status)
      as (λ b.
        (if b then record c { status = analyzing } else c)
        ≡ record c { status = if b then analyzing else c.status }) [ true ↦ refl | false ↦ refl ]
    ∙ ap (λ (s : CallStatus). record c { status = s }) (is_done-status_after c.status)

corrected-rows_after :
    (speakers : List SpeakerRow) (r : Rows) → corrected speakers r ≡ rows_after speakers r
unfolding corrected rows_after
corrected-rows_after speakers r =
    rw (without_voiced-purged r.db.runs, analyzed_again r.db.call) refl

-- What a patch does to a call whose rows are `s.live`.
pub data Correction (body : SpeakerPatch) (s : Site) : Result TranscriptOut × Site → Type 0 where
  refused : Missing body s.live.db.speakers → Correction body s (err speaker_missing, s)
  stored :
      (after : List SpeakerRow) (o : Result TranscriptOut × Site)
      → Corrects body body.swap_with s.live.db.speakers after
      → o.0 ≡ ok (transcript_out o.1.live)
      → o.1 ≡ record s {
        committed = rows_after after s.live;
        live = rows_after after s.live;
        queue = s.queue ++ rows_after after s.live ∷ [];
      }
      → Correction body s o

nothing_changed :
    (s : Site) (o : Result TranscriptOut × Site)
    → Changes none s o
    → (o.0 ≡ err speaker_missing) × (o.1 ≡ s)
unfolding Changes
nothing_changed s o c = c

all_changed :
    (after : List SpeakerRow) (s : Site) (o : Result TranscriptOut × Site)
    → Changes (some after) s o
    → (o.0 ≡ ok (transcript_out (corrected after s.live)))
      × (o.1 ≡ record s {
        committed = corrected after s.live;
        live = corrected after s.live;
        queue = s.queue ++ corrected after s.live ∷ [];
      })
unfolding Changes
all_changed after s o c = c

-- A correction that names a speaker that is not one of the call raises NotFoundError and changes nothing.
-- Any other stores the speakers with the one of the patch corrected: it has the role and the name of the
-- patch, or its own where the patch has none, or, if the patch names a partner, the two have each other's;
-- they are marked as set by a person, and every other row is left. It deletes the customer facts and the
-- sentiment points of every run and no other insight, puts a shipped, partial or failed call back to
-- ANALYZING and leaves every other status, commits all that, queues the call for a worker, and answers with
-- the transcript that `get_transcript` then gives.
pub patch_speakers-Correction :
    (now : ℕ) (body : SpeakerPatch) (s : Site)
    → s.committed ≡ s.live
    → Correction body s (request (patch_speakers now body) s)
patch_speakers-Correction now body s h =
    by_rows (patched_rows body s.live.db.speakers) (patched_rows-Outcome body s.live.db.speakers)
      (correction now body s h (patched_rows body s.live.db.speakers) refl)
  where
    by_rows :
        (o : Option (List SpeakerRow))
        → Outcome body body.swap_with s.live.db.speakers o
        → Changes o s (request (patch_speakers now body) s)
        → Correction body s (request (patch_speakers now body) s)
    by_rows none m c =
        let (raised, same) = nothing_changed s (request (patch_speakers now body) s) c in
        subst (Correction body s) (λ i. (sym raised i, sym same i)) (refused (unfold Outcome in m))
    by_rows (some after) m c =
        let (answer, site) = all_changed after s (request (patch_speakers now body) s) c in
        stored after (request (patch_speakers now body) s) (unfold Outcome in m)
          (answer ∙ ap (λ (t : Site). ok (transcript_out t.live)) (sym site))
          (rw (← corrected-rows_after after s.live) site)
