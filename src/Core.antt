-- ===== src/Core.antt =====
-- app/core: the enums, the typed errors and the classification of errors for a retry.
pub mod Enums
pub mod Errors
pub mod Retry
pub mod Security
