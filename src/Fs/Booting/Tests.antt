-- ===== src/Fs/Booting/Tests.antt =====
-- The theorem on init_fs at a small tree of the host.
use weird_os.Base.{◌+◌, ◌*◌, ◌/◌, ◌-◌, ℕ, ◌≡◌, arith, refl, some, [], ◌∷◌}
use weird_os.Fs.Booting.{dev_name, init_fs}
use weird_os.Fs.Booting.Devices.{init_fs-devices}
use weird_os.Fs.Booting.Mounting.{tty0_name}
use weird_os.Fs.Image.{Image, is_dir}
use weird_os.Fs.Initrd.{Cache}
use weird_os.Fs.Initrd.Booted.{ReadsAs}
use weird_os.Makefs.Names.{a_directory, entry_of, lookup}
use weird_os.Fs.Udev.{fifo, directory_like, UdevInode, Udev}
use weird_os.Fs.Vfs.{Vfs, found, resolve_path, same_name}
use weird_os.Makefs.{Stat, Files, end, file, directory, is_dot, makefs}
use weird_os.Util.Text.{split, split_loop, substr}

abbrev regular : Stat
regular = record { st_mode = 0x81a4; st_uid = 0; st_gid = 0 }

abbrev folder : Stat
folder = record { st_mode = 0x41ed; st_uid = 0; st_gid = 0 }

-- An empty directory "dev" and a file "a".
abbrev host : Files
host = directory dev_name folder end (file (97 ∷ []) regular (1 ∷ 2 ∷ []) end)

abbrev no_inodes : ℕ → UdevInode
no_inodes d = record { device = directory_like; id = 0; mode = 0 }

-- malloc of the GNU C library on 64 bits: areas of 16 k + 8 bytes.
abbrev usable : ℕ → ℕ
usable n = (n + 23) / 16 * 16 - 8

init_fs-devices_example :
    (image : Image) × (c : Cache) × (u : Udev) × (v : Vfs) × (tty : ℕ) × (makefs usable 4 folder
        host
      ≡ some image)
    × (init_fs 0x100 no_inodes image ≡ some (c, u, v))
    × (resolve_path v (b'/' ∷ b'd' ∷ b'e' ∷ b'v' ∷ b'/' ∷ tty0_name) ≡ found tty)
    × ((u.m_inode tty).device ≡ fifo)
    × ReadsAs image c (resolve_path v (b'/' ∷ 97 ∷ [])) (lookup (a_directory host) ((97 ∷ []) ∷ []))
unfolding split split_loop substr is_dir entry_of is_dot same_name weird_os.Makefs.Encodes.entries
    weird_os.Makefs.Encodes.bytes
init_fs-devices_example =
    init_fs-devices usable 4 folder host end no_inodes (97 ∷ []) (97 ∷ []) [] (omega arith)
      (omega arith) (omega arith, tt, (omega arith, tt)) (omega arith, tt, (omega arith, tt))
      (refl, tt, (refl, tt)) refl (omega arith, tt) refl refl
