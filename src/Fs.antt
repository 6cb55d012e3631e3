-- ===== src/Fs.antt =====
-- The file system: kernel/fs and includes/kernel/fs.
pub mod Fifo
pub mod Image
pub mod Initrd
pub mod Vfs
pub mod Resolve
pub mod Mount
pub mod Udev
pub mod Booting
pub mod Syscalls
pub mod Tests
