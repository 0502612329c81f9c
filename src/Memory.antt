-- ===== src/Memory.antt =====
-- src/memory/memory.c
pub mod External
pub mod Pool
pub mod Alloc
pub mod Instances
pub mod Mapped
