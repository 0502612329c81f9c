-- ===== src/Resource.antt =====
-- src/resource/resource.c: pools of files, directories, sockets and descriptors for the fuzzer.
pub mod Cached
pub mod Clean
pub mod Module
pub mod Create
