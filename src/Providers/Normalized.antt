-- ===== src/Providers/Normalized.antt =====
-- app/providers/normalized.py: the provider's transcript, without the fields that nothing modelled
-- reads (words, the provider's labels and links, the raw payload).
use deal_truth_api.Prelude.{ℕ, Option, List, String, Text}

pub record NormalizedSegment : Type 0 where
  pub provider_segment_id : String
  pub provider_speaker_id : Text
  pub start_ms : ℕ
  pub end_ms : ℕ
  pub text : Text

pub record NormalizedSpeaker : Type 0 where
  pub provider_speaker_id : Text
  pub channel : Option ℕ

pub record NormalizedTranscript : Type 0 where
  pub language : Option String
  pub duration_ms : Option ℕ
  pub speakers : List NormalizedSpeaker
  pub segments : List NormalizedSegment
  pub recording_mode : String
