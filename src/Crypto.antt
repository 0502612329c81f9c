-- ===== src/Crypto.antt =====
-- src/crypto/crypto.c
pub mod Range
pub mod Hex
pub mod Setup
