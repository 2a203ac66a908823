-- ===== src/Agents/Routing.antt =====
-- The routing of tasks in agents/andromeda: the state, the nodes and the graph.
pub mod State
pub mod Screen
pub mod Match
pub mod Graph
