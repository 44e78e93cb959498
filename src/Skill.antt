-- ===== src/Skill.antt =====
-- skill/: the skills that a project may use.
pub mod Types
pub mod Manager
pub mod Loader
