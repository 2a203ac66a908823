-- ===== src/Contracts.antt =====
-- core/contracts: the values that the components exchange.
pub mod Json
pub mod Task
pub mod Skill
pub mod Job
