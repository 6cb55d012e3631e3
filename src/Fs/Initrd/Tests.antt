-- ===== src/Fs/Initrd/Tests.antt =====
-- The theorems on the initial ramdisk at a small tree of the host.
use weird_os.Base.{◌+◌, ◌*◌, ◌/◌, ◌-◌, ◌≡◌, arith, refl, some, List, ℕ, [], ◌∷◌}
use weird_os.Fs.Image.{Image, is_dir}
use weird_os.Fs.Initrd.{Cache}
use weird_os.Fs.Initrd.Booted.{mount_initrd, ReadsAs, makefs-resolve_path}
use weird_os.Makefs.Names.{a_directory, lookup}
use weird_os.Fs.Vfs.{Vfs, resolve_path}
use weird_os.Makefs.{Stat, Files, end, file, directory, makefs}
use weird_os.Util.Text.{split, split_loop, substr}

abbrev regular : Stat
regular = record { st_mode = 0x81a4; st_uid = 0; st_gid = 0 }

abbrev folder : Stat
folder = record { st_mode = 0x41ed; st_uid = 0; st_gid = 0 }

-- "." and "a", and below "d" the file "b".
abbrev host : Files
host = directory (b'.' ∷ []) folder end (
    file (97 ∷ []) regular (1 ∷ 2 ∷ [])
      (directory (100 ∷ []) folder (file (98 ∷ []) regular (3 ∷ 4 ∷ 5 ∷ []) end) end))

abbrev text : List ℕ
text = 100 ∷ b'/' ∷ 98 ∷ []

-- malloc of the GNU C library on 64 bits: areas of 16 k + 8 bytes.
abbrev usable : ℕ → ℕ
usable n = (n + 23) / 16 * 16 - 8

makefs-resolve_path_example :
    (image : Image) × (c : Cache) × (v : Vfs) × (makefs usable 4 folder host ≡ some image)
    × (mount_initrd 0x100 image ≡ some (c, v))
    × ReadsAs image c (resolve_path v (b'/' ∷ text)) (lookup (a_directory host) (split b'/' text))
unfolding split split_loop substr is_dir weird_os.Makefs.Encodes.entries
    weird_os.Makefs.Encodes.bytes
makefs-resolve_path_example =
    makefs-resolve_path usable 4 folder host text (omega arith) (omega arith)
      (omega arith, tt, (omega arith, (omega arith, (omega arith, tt), tt)))
      (omega arith, tt, (omega arith, (omega arith, (omega arith, tt), tt)))
      (refl, tt, (refl, (refl, (refl, tt), tt))) (omega arith, (omega arith, tt))
