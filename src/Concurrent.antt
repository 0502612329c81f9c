-- ===== src/Concurrent.antt =====
-- src/concurrent: the compare-and-swap loops and the epoch-protected sections.
pub mod Cas
pub mod Epoch
