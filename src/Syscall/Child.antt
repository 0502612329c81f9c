-- ===== src/Syscall/Child.antt =====
-- A fuzzing child of src/syscall/syscall.c: its context, the arguments it generates, the test it
-- makes and what it frees afterwards. The name of a system call and the time of a test, which only
-- logs use, are left out.
pub mod Machine
pub mod Context
pub mod Run
pub mod Copies
pub mod Outcomes
pub mod Toy
mod Examples
