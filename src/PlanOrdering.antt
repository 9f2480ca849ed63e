-- ===== src/PlanOrdering.antt =====
-- libs/runtime/src/runtime/plan/plan-ordering.ts: the order in which the nodes of a plan are prepared.
pub mod Text
pub mod Order
pub mod Ends
pub mod Tables
pub mod Ids
pub mod Release
pub mod Counts
pub mod Loop
pub mod Picked
pub mod Start
pub mod Execution
pub mod Complete
pub mod Cycles
mod Tests
