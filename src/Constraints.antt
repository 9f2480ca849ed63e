-- ===== src/Constraints.antt =====
-- libs/runtime/src/runtime/workspace/workspace-ordering.ts: the search for a path of dependencies, the
-- accesses of nodes, and the edges between nodes whose accesses conflict.
pub mod Search
pub mod Ends
pub mod Paths
pub mod Lowering
pub mod Serialized
pub mod Accesses
pub mod Cycle
pub mod Lower
pub mod Keyed
pub mod Simulated
pub mod Added
pub mod Extended
pub mod Initial
pub mod Renewed
pub mod Lowered
pub mod Placing
pub mod Answers
mod Tests
