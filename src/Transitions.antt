-- ===== src/Transitions.antt =====
-- libs/opencode/src/attempt-transitions.ts: what one attempt reports of its tools and messages.
pub mod Observations
pub mod Dispatcher
pub mod Dispatch
pub mod Late
pub mod Books
pub mod Names
mod Tests
