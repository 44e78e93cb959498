-- ===== src/Intake.antt =====
-- intake/: how an event comes in.
pub mod Event
pub mod Clock
pub mod Dedup
pub mod RateLimit
pub mod Json
pub mod Fingerprint
pub mod Display
pub mod Details
pub mod Handler
pub mod Endpoints
