-- ===== src/Clib.antt =====
-- The kernel's C library: kernel/clib.
pub mod Memory
pub mod MemoryLaws
pub mod Itoa
pub mod Printf
pub mod Streams
pub mod Tests
