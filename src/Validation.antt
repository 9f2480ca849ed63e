-- ===== src/Validation.antt =====
-- libs/runtime/src/runtime/validation/plan-validation.ts: the checks of a plan before it runs.
pub mod Issues
pub mod References
pub mod Sessions
pub mod Nodes
pub mod Choice
pub mod Repeat
pub mod Cycle
pub mod Plan
pub mod Accepted
pub mod Referenced
pub mod WellFormed
pub mod Grounded
pub mod Ends
pub mod Fed
pub mod Acyclic
pub mod Selected
mod Tests
