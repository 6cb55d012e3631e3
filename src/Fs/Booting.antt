-- ===== src/Fs/Booting.antt =====
-- init_fs of kernel/fs/fs.cpp, the initial ramdisk at the root and the devices at /dev, and init_vga
-- of kernel/drivers/vga/vga.cpp, which adds the text screen to the devices.
pub mod Screen
pub mod Frames
pub mod Beside
pub mod Mounting
pub mod Found
pub mod Devices
pub mod Tests
use weird_os.Base.{ℕ, Option, none, some, List, [], ◌∷◌}
use weird_os.Fs.Image.{Image}
use weird_os.Fs.Initrd.{Cache, initrd}
use weird_os.Fs.Udev.{UdevInode, Udev, vga_dev, make_file, udev}
use weird_os.Fs.Vfs.{Vfs, Mounted, mounted, mount_failed, mount_device}

abbrev pub dev_name : List ℕ
dev_name = b'd' ∷ b'e' ∷ b'v' ∷ []

-- `virt_fs` is empty at first. `m_inode` stands for the inodes of numbers that are not in use.
unfoldable pub init_fs :
    (fuel : ℕ) → (m_inode : ℕ → UdevInode) → Image → Option (Cache × Udev × Vfs)
unfolding initrd udev mount_device
init_fs fuel m_inode image = elim (initrd fuel image) [
  | none ↦ none
  | some (root, c) ↦
      let u = udev c.dirents c.next m_inode in
      elim (mount_device (b'/' ∷ []) root (record { dirents = u.dirents; root_dirent = 0 })) [
        | mount_failed ↦ none
        | mounted v ↦ elim (mount_device (b'/' ∷ dev_name) u.root_dirent v) [
          | mount_failed ↦ none
          | mounted v' ↦ some (c, u, v')
        ]
      ]
]

abbrev pub vga_name : List ℕ
vga_name = b'v' ∷ b'g' ∷ b'a' ∷ []

-- `virt_udev->make_file<vga_dev>("vga")`. The entries are those of the mounted file system. The mode is
-- S_IFCHR | S_IRWXA.
unfoldable pub init_vga : Udev → Vfs → Udev × Vfs
unfolding make_file
init_vga u v =
    let (_, u') = make_file vga_name vga_dev 0x21ff (record u { dirents = v.dirents }) in
    (u', record v { dirents = u'.dirents })
