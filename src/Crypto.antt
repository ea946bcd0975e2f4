-- ===== src/Crypto.antt =====
-- The crypto helpers that are plain code (apps/web/src/crypto).
pub mod Hex
