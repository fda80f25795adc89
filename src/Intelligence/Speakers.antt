-- ===== src/Intelligence/Speakers.antt =====
-- app/intelligence/speakers.py: which speaker is the seller and which the customer. A score is in
-- ten-thousandths, as the difference of what speaks for the seller and what speaks against; the
-- quotient in a confidence is rounded down to a ten-thousandth.
pub mod Roles
use deal_truth_api.Prelude.{
  ℕ, ◌+◌, ◌-◌, ◌/◌, Bool, true, false, ◌&&◌, ◌||◌, Option, none, some, List, [], ◌∷◌, ◌++◌, String,
  Text, codes, map, lower, contains, same_text, min, ltb, ◌==◌, if◌then◌else◌,
}
use deal_truth_api.Core.Enums.{CallDirection, RecordingMode, SpeakerRole}
use deal_truth_api.Providers.Normalized.{NormalizedSegment, NormalizedSpeaker, NormalizedTranscript}

-- `_SELLER_CUES`
abbrev pub seller_cues : List String
seller_cues =
    "our product" ∷ "our platform" ∷ "i can send" ∷ "i'll send" ∷ "i will send" ∷ "we can do"
    ∷ "happy to share" ∷ "next step on our side" ∷ []

-- `_CUSTOMER_CUES`
abbrev pub customer_cues : List String
customer_cues =
    "our security" ∷ "our budget" ∷ "we need" ∷ "we currently pay" ∷ "we can't" ∷ "we cannot"
    ∷ "i'll speak with" ∷ "i will talk to" ∷ "evaluate" ∷ "other vendors" ∷ []

-- `(speaker, role, confidence, display_name)`
pub record Resolved : Type 0 where
  pub speaker : NormalizedSpeaker
  pub role : SpeakerRole
  pub confidence : ℕ
  pub display_name : Option Text

-- `s < t`, for texts.
text_lt : Text → Text → Bool
text_lt s [] = false
text_lt [] (d ∷ t) = true
text_lt (c ∷ s) (d ∷ t) = ltb c d || (c == d && text_lt s t)

-- The id in a sorted list without repetition.
add_id : Text → List Text → List Text
unfolding text_lt
add_id i [] = i ∷ []
add_id i (j ∷ ids) =
    if same_text i j then j ∷ ids else if text_lt i j then i ∷ j ∷ ids else j ∷ add_id i ids

-- `sorted({s.provider_speaker_id for s in transcript.segments})`
speaker_ids : List NormalizedSegment → List Text
unfolding add_id
speaker_ids [] = []
speaker_ids (s ∷ rest) = add_id s.provider_speaker_id (speaker_ids rest)

or_derived : List NormalizedSpeaker → List NormalizedSegment → List NormalizedSpeaker
unfolding speaker_ids
or_derived [] segments =
    map (λ (i : Text). record { provider_speaker_id = i; channel = none }) (speaker_ids segments)
or_derived (s ∷ rest) segments = s ∷ rest

ends_with : ℕ → Text → Bool
ends_with c [] = false
ends_with c (d ∷ []) = d == c
ends_with c (d ∷ e ∷ s) = ends_with c (e ∷ s)

-- `_channel_from_id`; an id that is "0" or "channel_0" ends in "0".
unfoldable pub channel_from_id : Text → Option ℕ
unfolding ends_with
channel_from_id i = if ends_with b'0' i then some 0 else if ends_with b'1' i then some 1 else none

abbrev pub channel_of : NormalizedSpeaker → Option ℕ
channel_of sp = elim sp.channel [ some c ↦ some c | none ↦ channel_from_id sp.provider_speaker_id ]

stereo_role : NormalizedSpeaker → Option ℕ → ℕ → Option Text → Option Text → Resolved
stereo_role sp none seller customer_name rep_name = record {
  speaker = sp;
  role = SpeakerRole.unknown;
  confidence = 2000;
  display_name = none;
}
stereo_role sp (some c) seller customer_name rep_name =
    if c == seller
    then record {
      speaker = sp;
      role = SpeakerRole.seller;
      confidence = 9000;
      display_name = rep_name;
    }
    else record {
      speaker = sp;
      role = SpeakerRole.customer;
      confidence = 9000;
      display_name = customer_name;
    }

-- `_stereo`
unfoldable pub stereo : List NormalizedSpeaker → ℕ → Option Text → Option Text → List Resolved
unfolding stereo_role
stereo [] seller customer_name rep_name = []
stereo (sp ∷ speakers) seller customer_name rep_name =
    stereo_role sp (channel_of sp) seller customer_name rep_name
    ∷ stereo speakers seller customer_name rep_name

-- `by_speaker.get(id, [])`
texts_of : Text → List NormalizedSegment → List Text
texts_of i [] = []
texts_of i (s ∷ rest) =
    if same_text s.provider_speaker_id i then s.text ∷ texts_of i rest else texts_of i rest

-- `" ".join(texts)`
unfoldable pub join_spaces : List Text → Text
join_spaces [] = []
join_spaces (t ∷ []) = t
join_spaces (t ∷ u ∷ rest) = t ++ (32 ∷ join_spaces (u ∷ rest))

-- A point for each cue in the text.
points : List String → Text → ℕ
points [] joined = 0
points (cue ∷ cues) joined = (if contains (codes cue) joined then 10000 else 0) + points cues joined

is_first : Text → List NormalizedSegment → Bool
is_first i [] = false
is_first i (s ∷ rest) = same_text i s.provider_speaker_id

abbrev is_outbound : CallDirection → Bool
is_outbound CallDirection.outbound = true
is_outbound _ = false

-- A speaker with what speaks for and against the seller.
pub record Scored : Type 0 where
  pub speaker : NormalizedSpeaker
  pub for_seller : ℕ
  pub against : ℕ

-- The score of one speaker, with no label scores, as the pipeline calls it.
unfoldable pub score_of : List NormalizedSegment → CallDirection → NormalizedSpeaker → Scored
unfolding texts_of join_spaces points is_first
score_of segments direction sp =
    let joined = lower (join_spaces (texts_of sp.provider_speaker_id segments)) in
    record {
      speaker = sp;
      for_seller =
          points seller_cues joined
          + (if is_outbound direction && is_first sp.provider_speaker_id segments then 5000 else 0);
      against = points customer_cues joined;
    }

-- The score of the first is above that of the second.
unfoldable pub above : Scored → Scored → Bool
above a b = ltb (b.for_seller + a.against) (a.for_seller + b.against)

-- `scored.sort(key=..., reverse=True)`: highest first, equal scores in their order.
unfoldable pub insert_scored : Scored → List Scored → List Scored
insert_scored s [] = s ∷ []
insert_scored s (t ∷ rest) = if above t s then t ∷ insert_scored s rest else s ∷ t ∷ rest

unfoldable pub sort_scored : List Scored → List Scored
unfolding insert_scored above
sort_scored [] = []
sort_scored (s ∷ rest) = insert_scored s (sort_scored rest)

-- `min(0.95, 0.5 + abs(score) / 6)`
unfoldable pub confidence_of : Scored → ℕ
confidence_of s = min 9500 (5000 + ((s.for_seller - s.against) + (s.against - s.for_seller)) / 6)

unfoldable pub rest_unknown : List Scored → List Resolved
rest_unknown [] = []
rest_unknown (s ∷ rest) =
    record {
      speaker = s.speaker;
      role = SpeakerRole.unknown;
      confidence = 3000;
      display_name = none;
    }
    ∷ rest_unknown rest

unfoldable pub assign : List Scored → Option Text → Option Text → List Resolved
unfolding rest_unknown confidence_of
assign [] customer_name rep_name = []
assign (s ∷ []) customer_name rep_name =
    record {
      speaker = s.speaker;
      role = SpeakerRole.seller;
      confidence = confidence_of s;
      display_name = rep_name;
    }
    ∷ []
assign (s ∷ c ∷ rest) customer_name rep_name =
    record {
      speaker = s.speaker;
      role = SpeakerRole.seller;
      confidence = confidence_of s;
      display_name = rep_name;
    }
    ∷ (record {
      speaker = c.speaker;
      role = SpeakerRole.customer;
      confidence = confidence_of c;
      display_name = customer_name;
    }
        ∷ rest_unknown rest)

-- `_mono`
unfoldable pub mono :
    List NormalizedSpeaker
    → List NormalizedSegment
    → CallDirection
    → Option Text
    → Option Text
    → List Resolved
unfolding score_of
mono speakers segments direction customer_name rep_name =
    assign (sort_scored (map (score_of segments direction) speakers)) customer_name rep_name

unfoldable pub resolve_speakers :
    NormalizedTranscript
    → RecordingMode
    → ℕ
    → CallDirection
    → Option Text
    → Option Text
    → List Resolved
unfolding or_derived
resolve_speakers t RecordingMode.stereo seller direction customer_name rep_name =
    stereo (or_derived t.speakers t.segments) seller customer_name rep_name
resolve_speakers t RecordingMode.mono seller direction customer_name rep_name =
    mono (or_derived t.speakers t.segments) t.segments direction customer_name rep_name
