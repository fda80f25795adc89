-- ===== src/Providers.antt =====
-- app/providers: what the transcription provider hands over.
pub mod Normalized
