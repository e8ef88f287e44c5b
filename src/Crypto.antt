-- ===== src/Crypto.antt =====
-- src-tauri/src/crypto: the end-to-end encryption of direct messages.
pub mod Ratchet
pub mod Noise
