-- ===== src/Policy.antt =====
-- The policy that decides, before an agent runs, whether a task may proceed (core/policy).
pub mod Glob
pub mod Engine
pub mod Load
pub mod Usable
pub mod FirstMatch
pub mod Strictest
pub mod Grants
