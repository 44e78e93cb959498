-- ===== src/Diagnosis.antt =====
-- The diagnosis package: the shape of an answer, its score, and the reuse of earlier reports.
pub mod Types
pub mod Score
pub mod Paths
pub mod Verify
pub mod Repair
pub mod Parse
pub mod Report
pub mod Reuse
pub mod Payload
pub mod Heuristics
pub mod Prompt
pub mod Fixer
pub mod Assembly
pub mod Engine
