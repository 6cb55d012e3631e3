-- ===== src/Page.antt =====
-- Physical frames and page tables: kernel/page.cpp and includes/kernel/page.h.
pub mod Frames
pub mod FrameLaws
pub mod FrameOps
pub mod Directory
pub mod Tables
pub mod Present
pub mod DirectoryLaws
pub mod Tests
