-- ===== src/Kmalloc.antt =====
-- The kernel heap of kernel/kmalloc.cpp and includes/kernel/kmalloc.h.
pub mod Memory
pub mod Blocks
pub mod Alloc
pub mod Returns
pub mod Info
pub mod Layout
pub mod Merge
pub mod Free
pub mod Split
pub mod Candidates
pub mod Choose
pub mod Allocate
pub mod Coalesced
pub mod Live
pub mod Restore
pub mod Contract
pub mod Find
pub mod Move
pub mod Grow
pub mod Reallocate
pub mod Kernel
pub mod Tests
