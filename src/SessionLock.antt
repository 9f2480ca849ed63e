-- ===== src/SessionLock.antt =====
-- libs/runtime/src/runtime/session/session-lock.ts: exclusive admission to agent sessions, with a
-- queue in creation order, cancellation and quarantine.
pub mod State
pub mod Calls
pub mod Machine
mod Held
mod Booked
mod Returned
mod Sound
pub mod Exclusion
pub mod Quarantine
pub mod HandOver
pub mod Heard
mod Tests
