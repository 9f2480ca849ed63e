-- ===== src/WorkspaceLock.antt =====
-- libs/runtime/src/runtime/workspace/workspace-lock.ts: reader-writer admission to workspaces,
-- as a machine that takes one call of the registry or of a lease at a time.
pub mod State
pub mod Admit
pub mod Release
pub mod Machine
mod Held
mod Tally
mod Booked
mod Admitted
mod Acquired
mod Granted
mod Sound
pub mod Exclusion
pub mod Order
pub mod Heard
mod Tests
