-- ===== src/Agents.antt =====
-- The agents that are registered (core/pulsar) and the routing of tasks to them (agents/andromeda).
pub mod Registry
pub mod Routing
pub mod TaskLog
