-- ===== src/Api.antt =====
-- app/api/v1: the handlers of the HTTP interface.
pub mod Site
pub mod Deals
pub mod Calls
pub mod Audio
pub mod Share
pub mod Overview
pub mod Events
