-- ===== src/Storage.antt =====
-- app/storage: the blob store and the checks of what is put into it.
pub mod Memory
pub mod Validate
pub mod Ssrf
