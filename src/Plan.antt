-- ===== src/Plan.antt =====
-- The nodes of a plan and what the runtime derives from them before a run.
pub mod Nodes
pub mod AgentWork
pub mod SessionOrdering
pub mod ReuseOrder
pub mod Kept
mod Tests
