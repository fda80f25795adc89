-- ===== src/Ml.antt =====
-- app/ml: what the inference service answers.
pub mod Axes
pub mod Json
pub mod Batch
pub mod Rows
pub mod Labels
