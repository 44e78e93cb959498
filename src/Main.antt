-- ===== src/Main.antt =====
-- main.go: the parts put together.
pub mod Reports
pub mod Task
pub mod Intake
pub mod Config
pub mod Wiring
