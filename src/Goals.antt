-- ===== src/Goals.antt =====
-- Goals and their planned tasks (core/goals).
pub mod Plan
pub mod Blocking
pub mod Rows
pub mod Reading
pub mod Saving
pub mod Diagram
pub mod Substitution
pub mod Keys
pub mod Reconcile
pub mod Rerun
pub mod Runner
pub mod Store
pub mod Control
pub mod Claiming
pub mod Rollup
