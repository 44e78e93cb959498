-- ===== src/Api.antt =====
-- api/: the admin API.
pub mod Messages
pub mod Server
