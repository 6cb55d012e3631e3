-- ===== src/Fs/Image.antt =====
-- The format of the initial ramdisk, which scripts/makefs.c writes and kernel/fs/initrd.cpp reads;
-- both declare the same packed structures. A name is the list of its characters before the 0.
use weird_os.Base.{ℕ, ◌/◌, ◌%◌, ◌^◌, Bool, ◌==◌, List}

pub record InitrdDirent : Type 0 where
  pub name : List ℕ
  pub inode_id : ℕ
  pub parent : ℕ
  pub first_child : ℕ
  pub sibling : ℕ

pub record InitrdInode : Type 0 where
  pub id : ℕ
  pub mode : ℕ
  pub uid : ℕ
  pub gid : ℕ
  pub size : ℕ
  pub data_offset : ℕ

pub record InitrdHeader : Type 0 where
  pub num_dirent : ℕ
  pub dirents : ℕ → InitrdDirent
  pub inodes : ℕ → InitrdInode

-- The header and the bytes behind it.
pub record Image : Type 0 where
  pub header : InitrdHeader
  pub file_data : List ℕ

-- S_ISDIR of the kernel: the one bit of S_IFDIR, so block devices and sockets pass as well.
unfoldable pub is_dir : (mode : ℕ) → Bool
is_dir mode = mode / 2 ^ 14 % 2 == 1
