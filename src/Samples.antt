-- ===== src/Samples.antt =====
-- A small call, and the theorems applied to it.
pub mod Runs
pub mod Requests
pub mod Services
use deal_truth_api.Prelude.{
  ℕ, ◌≡◌, refl, ◌≢◌, ◌⊎◌, true, false, not, ◌&&◌, none, some, List, [], ◌∷◌, ◌++◌, Text, codes, All,
  Forall₂, Pairwise, arith, Memᴰ, map, ◌*◌, ◌+◌,
}
use deal_truth_api.Core.Enums.{
  CallStatus, queued, transcribing, analyzing, shipped, partial, cancelled, failed, FailureKind,
  SpeakerRole, InsightType, EvidenceStatus, RecordingMode,
}
use deal_truth_api.Core.Errors.{ErrorClass, MlError, named, attrs}
use deal_truth_api.Core.Retry.{should_retry, is_not_ready}
use deal_truth_api.Core.Retry.Table.{should_retry-attrs}
use deal_truth_api.Pipeline.State.{CallState, moved, refused, transition}
use deal_truth_api.Pipeline.State.Graph.{
  accepts, Entered, refusal, transition_lem, attempts, attempts-cancelled, Route, Route-shipped,
}
use deal_truth_api.Ml.Axes.{EmotionAxes}
use deal_truth_api.Intelligence.Domain.{Segment, CandidateInsight, ValidatedInsight, Value}
use deal_truth_api.Intelligence.Extract.Commitments.{RecapActionItem}
use deal_truth_api.Intelligence.Extract.Objections.{Term}
use deal_truth_api.Intelligence.Extract.Grounded.{Grounded}
use deal_truth_api.Evidence.{
  judge, judge_by, judge_factual, walk, check, check_found, conclude, by_id, required,
  claimed_quote, unconfirmed_or_drop, validate_candidates, shippable,
}
use deal_truth_api.Providers.Normalized.{NormalizedSegment, NormalizedTranscript}
use deal_truth_api.Intelligence.Speakers.{Resolved, mono}
use deal_truth_api.Intelligence.Speakers.Roles.{Ranked, mono-Ranked}
use deal_truth_api.Core.Enums.{CallDirection}
use deal_truth_api.Intelligence.Ask.{Group, chunk_segments, chunk_of}
use deal_truth_api.Intelligence.Ask.Chunks.{IsCut, chunk_segments_lem}
use deal_truth_api.Pipeline.Session.{SpeakerRow, Db, Session, ok}
use deal_truth_api.Pipeline.Persist.{persist_transcript, load_segment_views, persist_insights}
use deal_truth_api.Pipeline.Persist.Stored.{
  load_segment_views-persist_transcript, persist_transcript_kept,
}
use deal_truth_api.Pipeline.Persist.Versions.{Added, DistinctVersions, persist_insights_lem}
use deal_truth_api.Evidence.Sound.{JudgedSo, validate_candidates-Judged}
use deal_truth_api.Evidence.Claims.{Disjoint, validate_candidates-Disjoint}
use deal_truth_api.Evidence.Order.{seen_after, validate_candidates-refused}
use deal_truth_api.Pipeline.Analyze.{candidates, judged}
use deal_truth_api.Pipeline.Analyze.Refusals.{
  DistinctIds, candidates-Grounded, OnlyRepeats, judged_refusals,
}

abbrev offer : Segment
offer = record {
  id = 1;
  provider_segment_id = "seg_0";
  speaker_id = some 10;
  speaker_role = SpeakerRole.seller;
  start_ms = 0;
  end_ms = 2000;
  text = codes "I will send the pricing by Friday";
  sequence_number = 0;
  labels = ("seller commitment", 9000) ∷ [];
  emotions = [];
}

abbrev worry : Segment
worry = record {
  id = 2;
  provider_segment_id = "seg_1";
  speaker_id = some 11;
  speaker_role = SpeakerRole.customer;
  start_ms = 2500;
  end_ms = 5000;
  text = codes "We spend ten hours a week on this";
  sequence_number = 1;
  labels = ("customer pain", 8000) ∷ ("pricing objection", 7000) ∷ [];
  emotions = [];
}

abbrev pub call : List Segment
call = offer ∷ worry ∷ []

abbrev claim : List ℕ → CandidateInsight
claim sids = record {
  type = InsightType.customer_fact;
  title = codes "Customer pain";
  summary = codes "Ten hours a week";
  severity = none;
  confidence = 8000;
  evidence_status = EvidenceStatus.supported;
  segment_ids = sids;
  payload = ("quote", Value.text (codes " ten hours ")) ∷ [];
  required_role = none;
  relationship = "supports";
}

-- The first is proven, the second names a segment of the seller, the third repeats the first.
abbrev claims : List CandidateInsight
claims = claim (2 ∷ []) ∷ claim (1 ∷ []) ∷ claim (2 ∷ []) ∷ []

abbrev axes : List (ℕ × EmotionAxes)
axes =
    (
      2,
      record {
        emotion = ("annoyance", 6000) ∷ ("hesitant", 2000) ∷ [];
        buying_intent = [];
        deal_signals = ("budget", 7000) ∷ [];
        unavailable = record { emotion = false; buying_intent = true; deal_signals = false };
      },
    )
    ∷ []

abbrev pub items : List RecapActionItem
items = record { text = codes "send the pricing"; owner = none; due_text = none; side = none } ∷ []

abbrev pub competitors : List Term
competitors = (codes "Gong", codes "gong.io" ∷ []) ∷ []

abbrev pub waiting : CallState
waiting = record {
  status = queued;
  terminal_outcome = none;
  failure_kind = none;
  completed_at = none;
}

abbrev called_off : CallState
called_off = record waiting { status = cancelled }

should_retry-attrs_example :
    should_retry (named (ErrorClass.ml MlError.response_invalid) "bad dimension") ≡ (
      (attrs (ErrorClass.ml MlError.response_invalid)).retryable
      && not (is_not_ready (ErrorClass.ml MlError.response_invalid)))
should_retry-attrs_example =
    should_retry-attrs (ErrorClass.ml MlError.response_invalid) "bad dimension"

transition_lem_example :
    ((accepts queued shipped ≡ true)
      × ((d : CallState) × (transition 7 waiting shipped none ≡ moved d)
          × Entered 7 waiting shipped none d))
    ⊎ ((accepts queued shipped ≡ false)
        × (transition 7 waiting shipped none ≡ refused (refusal queued)))
transition_lem_example = transition_lem 7 waiting shipped none

attempts-cancelled_example :
    attempts 7 called_off ((analyzing, none) ∷ (failed, some FailureKind.recap) ∷ []) ≡ called_off
attempts-cancelled_example =
    attempts-cancelled 7 called_off ((analyzing, none) ∷ (failed, some FailureKind.recap) ∷ []) refl

partial≢cancelled : ◌≢◌ {A = CallStatus} partial cancelled
partial≢cancelled h = cc

Route-shipped_example : Route partial shipped
Route-shipped_example = Route-shipped partial partial≢cancelled

validate_candidates-Judged_example :
    Forall₂ (JudgedSo 5000 call) claims (validate_candidates claims call 5000).0
validate_candidates-Judged_example = validate_candidates-Judged claims call 5000

validate_candidates-Disjoint_example : Pairwise Disjoint (validate_candidates claims call 5000).0
validate_candidates-Disjoint_example = validate_candidates-Disjoint claims call 5000

validate_candidates-refused_example :
    shippable (validate_candidates ([] ++ claim (1 ∷ []) ∷ claim (2 ∷ []) ∷ []) call 5000).0
    ≡ shippable (validate_candidates ([] ++ claim (2 ∷ []) ∷ []) call 5000).0
unfolding judge judge_by judge_factual walk check check_found conclude seen_after by_id required
    claimed_quote unconfirmed_or_drop
validate_candidates-refused_example =
    validate_candidates-refused [] (claim (1 ∷ [])) (claim (2 ∷ []) ∷ []) call 5000 refl

candidates-Grounded_example : All (Grounded call) (candidates call axes items competitors)
candidates-Grounded_example = candidates-Grounded call axes items competitors

call-DistinctIds : DistinctIds call
call-DistinctIds = (((λ h. ground arith), tt), (tt, tt))

judged_refusals_example : OnlyRepeats [] (judged call axes items competitors 5000).0
judged_refusals_example = judged_refusals call axes items competitors 5000 call-DistinctIds

abbrev said : ℕ → Text → NormalizedSegment
said i speaker = record {
  provider_segment_id = "seg";
  provider_speaker_id = speaker;
  start_ms = i * 3000;
  end_ms = i * 3000 + 2000;
  text = codes "we need a pilot";
}

abbrev pub heard : NormalizedTranscript
heard = record {
  language = some "en";
  duration_ms = some 5000;
  speakers = record { provider_speaker_id = codes "spk_0"; channel = none } ∷ [];
  segments = said 0 (codes "spk_0") ∷ said 1 (codes "spk_1") ∷ [];
  recording_mode = "stereo";
}

abbrev pub resolved : List Resolved
resolved =
    record {
      speaker = record { provider_speaker_id = codes "spk_0"; channel = none };
      role = SpeakerRole.seller;
      confidence = 9000;
      display_name = none;
    }
    ∷ []

abbrev pub set_by_hand : SpeakerRow
set_by_hand = record {
  id = 3;
  provider_speaker_id = codes "spk_0";
  role = SpeakerRole.customer;
  display_name = some (codes "Ada");
  confidence = 10000;
  channel = none;
  manually_overridden = true;
}

abbrev pub db : Db
db = record {
  call = record waiting { status = transcribing };
  pyai_job_id = none;
  recording_mode = RecordingMode.stereo;
  language = none;
  duration_ms = none;
  speakers = set_by_hand ∷ [];
  segments = [];
  stored_recap = false;
  runs = record { version = 4; insights = []; refused_claims = []; warnings = [] } ∷ [];
  chunks = [];
  events = [];
}

abbrev pub session : Session
session = record {
  stored = db;
  synced = db.call;
  live = db;
  outside = [];
  fresh = 20;
  warnings = [];
  reports = [];
}

load_segment_views-persist_transcript_example :
    (persist_transcript heard resolved session).0
    ≡ ok (load_segment_views (persist_transcript heard resolved session).1.live)
load_segment_views-persist_transcript_example =
    load_segment_views-persist_transcript heard resolved session
      (record { distinct = (tt, tt); below = (omega arith, tt) })

persist_transcript_kept_example :
    Memᴰ set_by_hand (persist_transcript heard resolved session).1.live.speakers
persist_transcript_kept_example =
    persist_transcript_kept heard resolved session set_by_hand (Memᴰ.head refl) refl

abbrev pub verdicts : List ValidatedInsight
verdicts = (validate_candidates claims call 5000).0

persist_insights_lem_example :
    Added verdicts db.runs (persist_insights verdicts session).1.live.runs
    × (DistinctVersions db.runs → DistinctVersions (persist_insights verdicts session).1.live.runs)
persist_insights_lem_example = persist_insights_lem verdicts session

chunk_segments_lem_example :
    (gs : List Group) × (chunk_segments 800 call ≡ map chunk_of gs) × IsCut 800 call gs
chunk_segments_lem_example = chunk_segments_lem 800 call

mono-Ranked_example :
    Ranked heard.segments CallDirection.outbound heard.speakers
      (mono heard.speakers heard.segments CallDirection.outbound none (some (codes "Ada")))
mono-Ranked_example =
    mono-Ranked heard.speakers heard.segments CallDirection.outbound none (some (codes "Ada"))
