-- ===== src/NodeMap.antt =====
-- libs/tui/src/run-node-map.ts: maps of nodes that share what did not change.
pub mod Overlay
pub mod Layers
pub mod Listed
pub mod Refined
mod Tests
