-- ===== src/Binding.antt =====
-- Bindings of plan nodes: their references, their resolution and their serial form.
pub mod Json
pub mod Resolve
pub mod References
pub mod Faults
pub mod Serialize
pub mod Roundtrip
pub mod Agreement
mod Tests
