-- ===== src/Orchestration.antt =====
-- src/atlas/orchestration: the agent's state, its nodes and the graph that joins them.
pub mod State
pub mod Decisions
pub mod Gate
pub mod Planner
pub mod Approval
pub mod Executor
pub mod Responder
pub mod Turn
