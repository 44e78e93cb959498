-- ===== src/Logger.antt =====
-- logger/: the log files and their rotation.
pub mod File
