-- ===== src/Evidence.antt =====
-- app/evidence/__init__.py: the validator that stands between the extractors and the report. The
-- `for` over the cited segments is `walk`, the body of the outer `for` is `judge`, and the outer loop
-- is `validate_from`, which carries the set `seen`.
pub mod Keys
pub mod Sound
pub mod Claims
pub mod Order
use deal_truth_api.Prelude.{
  ℕ, Bool, true, false, not, Option, none, some, List, [], ◌∷◌, ◌++◌, String, Text, Dict, lookup,
  insert, remove, strip, contains, keep, ltb, ◌==◌, map, if◌then◌else◌,
}
use deal_truth_api.Core.Enums.{
  EvidenceStatus, InsightType, SpeakerRole, customer_fact, sentiment_point, same_role,
}
use deal_truth_api.Intelligence.Domain.{
  Segment, Reason, no_support, segment_missing, wrong_speaker, quote_absent, already_claimed, Value,
  CandidateInsight, ValidatedInsight,
}
use Keys.{Key, seen_before}

-- `{s.id: s for s in segments}.get(sid)`: the last segment of that id.
unfoldable pub by_id : List Segment → ℕ → Option Segment
by_id [] sid = none
by_id (s ∷ rest) sid = elim (by_id rest sid) [
  | some t ↦ some t
  | none ↦ if s.id == sid then some s else none
]

-- `cand.type in CUSTOMER_ONLY_TYPES`
abbrev pub customer_only : InsightType → Bool
customer_only customer_fact = true
customer_only sentiment_point = true
customer_only _ = false

unfoldable pub required : CandidateInsight → Option SpeakerRole
required cand = elim cand.required_role [
  | some r ↦ some r
  | none ↦ if customer_only cand.type then some SpeakerRole.customer else none
]

-- `isinstance(q, str) and q.strip()`: the stripped text, if there is one.
stripped : Text → Option Text
stripped [] = none
stripped (c ∷ s) = some (c ∷ s)

quote_of : Option Value → Option Text
unfolding stripped
quote_of (some (Value.text q)) = stripped (strip q)
quote_of _ = none

unfoldable pub claimed_quote : CandidateInsight → Option Text
unfolding quote_of
claimed_quote cand = quote_of (lookup "quote" cand.payload)

-- What `logger` and the processing events get.
pub data Message : Type 0 where
  no_evidence : Message
  missing : ℕ → Message
  expected : SpeakerRole → Message
  not_in_transcript : Message
  duplicate : Message
  below_threshold : Message

pub record EvidenceEvent : Type 0 where
  pub error_code : String
  pub insight_type : InsightType
  pub title : Text
  pub message : Message

abbrev pub event : String → CandidateInsight → Message → EvidenceEvent
event code cand message = record {
  error_code = code;
  insight_type = cand.type;
  title = cand.title;
  message = message;
}

pub record Refusal : Type 0 where
  pub code : String
  pub why : Reason
  pub message : Message

-- One pass of the inner loop: the segment, or why the candidate is refused there.
pub data Check : Type 0 where
  passed : Segment → Check
  stopped : Refusal → Check

role_fits : Option SpeakerRole → Segment → Bool
role_fits none seg = true
role_fits (some r) seg = same_role seg.speaker_role r

wrong_role : Option SpeakerRole → Segment → Refusal
wrong_role none seg = record {
  code = "EVIDENCE_UNSUPPORTED";
  why = no_support;
  message = Message.no_evidence;
}
wrong_role (some r) seg = record {
  code = "EVIDENCE_WRONG_SPEAKER";
  why = wrong_speaker seg.speaker_role r;
  message = Message.expected r;
}

quote_fits : Option Text → Segment → Bool
quote_fits none seg = true
quote_fits (some q) seg = contains q seg.text

unfoldable pub check_found : CandidateInsight → List Key → ℕ → Segment → Check
unfolding role_fits wrong_role quote_fits
check_found cand seen sid seg =
    if not (role_fits (required cand) seg)
    then stopped (wrong_role (required cand) seg)
    else if not (quote_fits (claimed_quote cand) seg)
    then stopped (record {
      code = "EVIDENCE_UNSUPPORTED";
      why = quote_absent;
      message = Message.not_in_transcript;
    })
    else if seen_before (cand.type, cand.title, sid) seen
    then stopped (record {
      code = "EVIDENCE_UNSUPPORTED";
      why = already_claimed;
      message = Message.duplicate;
    })
    else passed seg

unfoldable pub check : List Segment → CandidateInsight → List Key → ℕ → Check
unfolding check_found
check segments cand seen sid = elim (by_id segments sid) [
  | none ↦ stopped (record {
    code = "EVIDENCE_SEGMENT_MISSING";
    why = segment_missing sid;
    message = Message.missing sid;
  })
  | some seg ↦ check_found cand seen sid seg
]

-- The inner loop: the segments that back the candidate, in the order cited, or the first refusal.
pub data Walked : Type 0 where
  backed : List (ℕ × Segment) → Walked
  failed : Refusal → Walked

abbrev pub extend : ℕ → Check → Walked → Walked
extend sid (stopped r) rest = failed r
extend sid (passed seg) (backed segs) = backed ((sid, seg) ∷ segs)
extend sid (passed seg) (failed r) = failed r

unfoldable pub walk : List Segment → CandidateInsight → List Key → List ℕ → Walked
walk segments cand seen [] = backed []
walk segments cand seen (sid ∷ sids) =
    extend sid (check segments cand seen sid) (walk segments cand seen sids)

-- `_unconfirmed_or_drop`
unfoldable pub unconfirmed_or_drop : CandidateInsight → Reason → String → ValidatedInsight
unconfirmed_or_drop cand why code = record {
  type = cand.type;
  title = cand.title;
  summary = cand.summary;
  severity = cand.severity;
  confidence = cand.confidence;
  evidence_status = EvidenceStatus.unconfirmed;
  segment_ids = [];
  quotes = [];
  audio_spans = [];
  payload = insert "unconfirmed_reason" (Value.reason why) cand.payload;
  relationship = cand.relationship;
  dropped = true;
  drop_reason = some why;
  error_code = some code;
  attempted_segment_ids = cand.segment_ids;
  attempted_quote = claimed_quote cand;
}

-- `ValidatedInsight(...)` for a candidate that ships: its status, payload and cited segments.
unfoldable pub ship :
    CandidateInsight → EvidenceStatus → Dict Value → List (ℕ × Segment) → ValidatedInsight
ship cand status payload segs = record {
  type = cand.type;
  title = cand.title;
  summary = cand.summary;
  severity = cand.severity;
  confidence = cand.confidence;
  evidence_status = status;
  segment_ids = map (λ (p : ℕ × Segment). p.0) segs;
  quotes = map (λ (p : ℕ × Segment). p.1.text) segs;
  audio_spans = map (λ (p : ℕ × Segment). (p.1.start_ms, p.1.end_ms)) segs;
  payload = payload;
  relationship = cand.relationship;
  dropped = false;
  drop_reason = none;
  error_code = none;
  attempted_segment_ids = [];
  attempted_quote = none;
}

-- What one candidate adds to `kept`, `events` and `seen`.
pub record Verdict : Type 0 where
  pub insight : ValidatedInsight
  pub events : List EvidenceEvent
  pub claims : List Key

abbrev pub claimed_keys : CandidateInsight → List (ℕ × Segment) → List Key
claimed_keys cand [] = []
claimed_keys cand ((sid, seg) ∷ segs) = (cand.type, cand.title, sid) ∷ claimed_keys cand segs

-- `payload.pop("quote", None)`, then the quotes and the spans of the cited segments.
proof_payload : CandidateInsight → List (ℕ × Segment) → Dict Value
proof_payload cand segs =
    insert "audio_spans" (Value.spans (map (λ (p : ℕ × Segment). (p.1.start_ms, p.1.end_ms)) segs))
      (insert "quotes" (Value.texts (map (λ (p : ℕ × Segment). p.1.text) segs))
        (remove "quote" cand.payload))

-- The end of the outer loop's body: the inner loop is done.
unfoldable pub conclude : ℕ → CandidateInsight → Walked → Verdict
unfolding proof_payload
conclude threshold cand (failed r) = record {
  insight = unconfirmed_or_drop cand r.why r.code;
  events = event r.code cand r.message ∷ [];
  claims = [];
}
conclude threshold cand (backed segs) =
    let low : Bool = ltb cand.confidence threshold in
    record {
      insight =
          ship cand (if low then EvidenceStatus.unconfirmed else cand.evidence_status)
            (proof_payload cand segs) segs;
      events = if low then event "EVIDENCE_UNSUPPORTED" cand Message.below_threshold ∷ [] else [];
      claims = claimed_keys cand segs;
    }

-- A candidate that claims a fact.
unfoldable pub judge_factual : ℕ → List Segment → List Key → CandidateInsight → List ℕ → Verdict
unfolding conclude
judge_factual threshold segments seen cand [] = record {
  insight = unconfirmed_or_drop cand no_support "EVIDENCE_UNSUPPORTED";
  events = event "EVIDENCE_UNSUPPORTED" cand Message.no_evidence ∷ [];
  claims = [];
}
judge_factual threshold segments seen cand (sid ∷ sids) =
    conclude threshold cand (walk segments cand seen (sid ∷ sids))

unfoldable pub judge_by : EvidenceStatus → ℕ → List Segment → List Key → CandidateInsight → Verdict
unfolding judge_factual
judge_by EvidenceStatus.absence_based threshold segments seen cand = record {
  insight =
      ship cand EvidenceStatus.absence_based (insert "absence" (Value.flag true) cand.payload) [];
  events = [];
  claims = [];
}
judge_by EvidenceStatus.non_factual threshold segments seen cand = record {
  insight = ship cand EvidenceStatus.non_factual cand.payload [];
  events = [];
  claims = [];
}
judge_by EvidenceStatus.supported threshold segments seen cand =
    judge_factual threshold segments seen cand cand.segment_ids
judge_by EvidenceStatus.unconfirmed threshold segments seen cand =
    judge_factual threshold segments seen cand cand.segment_ids

unfoldable pub judge : ℕ → List Segment → List Key → CandidateInsight → Verdict
unfolding judge_by
judge threshold segments seen cand = judge_by cand.evidence_status threshold segments seen cand

-- The outer loop.
unfoldable pub validate_from :
    ℕ → List Segment → List Key → List CandidateInsight → List ValidatedInsight × List EvidenceEvent
validate_from threshold segments seen [] = ([], [])
validate_from threshold segments seen (cand ∷ rest) =
    let v = judge threshold segments seen cand in
    let (kept, events) = validate_from threshold segments (seen ++ v.claims) rest in
    (v.insight ∷ kept, v.events ++ events)

unfoldable pub validate_candidates :
    List CandidateInsight → List Segment → ℕ → List ValidatedInsight × List EvidenceEvent
unfolding validate_from
validate_candidates candidates segments threshold = validate_from threshold segments [] candidates

-- Insights that may appear as claims in the report.
unfoldable pub shippable : List ValidatedInsight → List ValidatedInsight
shippable = keep (λ (i : ValidatedInsight). not i.dropped)
