-- ===== src/Tests.antt =====
-- Examples: every theorem that is listed in Lib.antt, applied to concrete inputs.
mod Scheduling
mod Intaking
mod Diagnosing
mod Storing
mod Engineering
mod Running
mod Serving
mod Notifying
