-- ===== src/Intelligence.antt =====
-- app/intelligence: what is derived from the transcript of a call.
pub mod Domain
pub mod Speakers
pub mod Ask
pub mod Extract
pub mod Dimensions
pub mod Metrics
