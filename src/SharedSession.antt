-- ===== src/SharedSession.antt =====
-- libs/runtime/src/runtime/session/shared-session-order.ts: tasks that share a session are to depend on
-- one another.
pub mod Preflight
pub mod Paths
pub mod Grouped
pub mod Ordered
pub mod Rejected
mod Tests
