-- ===== src/Amp.antt =====
-- amp/: the messages of the Amp command, its client, and the permission rules.
pub mod Types
pub mod Permission
pub mod Client
