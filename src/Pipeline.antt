-- ===== src/Pipeline.antt =====
-- app/pipeline: the state machine of a call, the records that a run writes, and the run.
pub mod State
pub mod Analyze
pub mod Session
pub mod Persist
pub mod Runner
