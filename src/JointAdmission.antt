-- ===== src/JointAdmission.antt =====
-- libs/runtime/src/runtime/invocation/joint-admission.ts: a session and a workspace are admitted
-- together, or neither is.
pub mod Attempt
pub mod Registry
pub mod Atomic
pub mod Queue
pub mod Machine
mod Listening
pub mod Orderly
pub mod Noticed
mod Tests
