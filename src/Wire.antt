-- ===== src/Wire.antt =====
-- Length-prefixed frames on QUIC streams: src-tauri/src/framing.rs and audio/transport.rs.
-- A receiving stream is the bytes that are still to come, with the error that stands behind them.
pub mod Frame
pub mod Audio
