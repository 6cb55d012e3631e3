-- ===== src/Fs/Booting/Devices.antt =====
-- The file system behind init_fs of kernel/fs/fs.cpp: the devices at /dev, and the initial ramdisk
-- at every other name.
use weird_os.Base.{
  ℕ, ◌+◌, suc, ◌^◌, ◌<◌, ◌≡◌, refl, sym, ap, ◌∙◌, subst, arith, false, some, List, [], ◌∷◌, All,
}
use weird_os.Fs.Booting.{dev_name, init_fs}
use weird_os.Fs.Image.{Image}
use weird_os.Fs.Initrd.{Cache, initrd}
use weird_os.Fs.Initrd.Booted.{ReadsAs, Outcome-ReadsAs, initrd-Shows}
use weird_os.Fs.Initrd.Caches.{ModesAgree}
use weird_os.Makefs.Names.{a_directory, entry_of, lookup}
use weird_os.Fs.Resolve.{walk, Short, resolve_path-walk}
use weird_os.Fs.Udev.{fifo, UdevInode, Udev, udev}
use weird_os.Fs.Vfs.{Vfs, same_name, mounted, mount_device, found, resolve_path}
use weird_os.Makefs.{Stat, Files, makefs}
use weird_os.Makefs.Encodes.{entries, bytes, ShortNames, PathsFit}
use weird_os.Makefs.Tree.{makefs-Holds}
use weird_os.Util.Text.{split, split_loop, substr}
use weird_os.Fs.Booting.Mounting.{
  tty0_name, first_mount, first_mounted, devices, made, dev-Mounts, mounted-Beside, tty0_below,
}
use weird_os.Fs.Booting.Found.{device_found, others_Outcome}

abbrev pub dev_tty0 : List ℕ
dev_tty0 = b'd' ∷ b'e' ∷ b'v' ∷ b'/' ∷ tty0_name

cut_tty0 : split b'/' dev_tty0 ≡ dev_name ∷ tty0_name ∷ []
unfolding split split_loop substr
cut_tty0 = refl

pub init_fs-runs :
    (fuel : ℕ) (m_inode : ℕ → UdevInode) (image : Image) (c : Cache) (v : Vfs)
    → initrd fuel image ≡ some (1, c)
    → (udev c.dirents c.next m_inode).root_dirent ≡ c.next
    → mount_device (b'/' ∷ dev_name) c.next (first_mount (udev c.dirents c.next m_inode).dirents)
      ≡ mounted v
    → init_fs fuel m_inode image ≡ some (c, udev c.dirents c.next m_inode, v)
unfolding init_fs
init_fs-runs fuel m_inode image c v run root second =
    rw (init_fs, run, first_mounted (udev c.dirents c.next m_inode).dirents, root, second) refl

-- init_fs, on the image that makefs writes of a tree of the host that has a directory "dev" at its
-- top. The tree has at most 254 entries, fewer than 2 ^ 32 - 255 bytes, names that fit, paths for which
-- malloc leaves a byte behind the size asked for, and modes by which the kernel and the host agree on
-- what is a directory. Then init_fs does not fail. The path /dev/tty0 names a pipe of the
-- device file system, whatever the host's directory held. A path whose names have fewer than 255
-- characters each and whose first name is not "dev"
-- still finds what its names lead to in the host's tree, and a file that it finds reads as the host's.
pub init_fs-devices :
    (usable : ℕ → ℕ) (len : ℕ) (stat : Stat) (files children : Files) (m_inode : ℕ → UdevInode)
    (path name : List ℕ) (names : List (List ℕ))
    → entries files < 0xff
    → bytes files + 0xff < 2 ^ 32
    → ShortNames files
    → PathsFit usable len files
    → ModesAgree files
    → entry_of files dev_name ≡ some (a_directory children)
    → All Short (split b'/' path)
    → split b'/' path ≡ name ∷ names
    → same_name name dev_name ≡ false
    → (image : Image) × (c : Cache) × (u : Udev) × (v : Vfs) × (tty : ℕ) × (makefs usable len stat
          files
        ≡ some image)
      × (init_fs 0x100 m_inode image ≡ some (c, u, v))
      × (resolve_path v (b'/' ∷ b'd' ∷ b'e' ∷ b'v' ∷ b'/' ∷ tty0_name) ≡ found tty)
      × ((u.m_inode tty).device ≡ fifo)
      × ReadsAs image c (resolve_path v (b'/' ∷ path)) (lookup (a_directory files) (name ∷ names))
unfolding init_fs
init_fs-devices usable len stat files children m_inode path name names room small short paths modes
      dev names_short cut other =
    let (image, first, made_image, h) = makefs-Holds usable len stat files room small short paths in
    let (c, run, old, shows) = initrd-Shows image first 0xff files room (omega arith) modes h in
    let all = image.file_data in
    let u : Udev = devices all c m_inode files old shows in
    let (v, second, mounts) = dev-Mounts all c m_inode files old shows children dev in
    let beside = mounted-Beside all c m_inode files old shows v mounts in
    let outcome = others_Outcome all c m_inode files old shows v beside name names other in
    let walked : resolve_path v (b'/' ∷ path) ≡ walk v.dirents 1 (name ∷ names) =
      resolve_path-walk v path names_short
      ∙ (ap (λ r. walk v.dirents r (split b'/' path)) beside.at_root ∙ ap (walk v.dirents 1) cut) in
    (
      image,
      c,
      u,
      v,
      suc c.next,
      made_image,
      init_fs-runs 0x100 m_inode image c v run (made all c m_inode files old shows).root second,
      device_found all c m_inode files old shows v beside dev_tty0 tty0_name (suc c.next) cut_tty0
          (omega arith) (tty0_below all c m_inode files old shows v mounts),
      (made all c m_inode files old shows).is_fifo,
      subst (λ r. ReadsAs image c r (lookup (a_directory files) (name ∷ names))) (sym walked)
          (Outcome-ReadsAs image (record c { dirents = v.dirents }) 2 c.next _
            (lookup (a_directory files) (name ∷ names)) outcome),
    )
