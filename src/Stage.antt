-- ===== src/Stage.antt =====
-- src-tauri/src/stage: live audio rooms.
pub mod Topology
pub mod Auth
pub mod Room
