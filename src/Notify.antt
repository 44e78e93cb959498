-- ===== src/Notify.antt =====
-- notify/: what becomes of a report outside.
pub mod Card
pub mod Feishu
