-- ===== src/Project.antt =====
-- project/: the registered projects and their checkouts.
pub mod Registry
pub mod Sources
