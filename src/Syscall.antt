-- ===== src/Syscall.antt =====
-- The syscall fuzzer: src/syscall.
pub mod ArgTypes
pub mod SetTest
pub mod Table
pub mod Child
pub mod Handlers
pub mod Loop
pub mod Children
pub mod Setup
pub mod Writes
pub mod Buffers
pub mod Generate
