-- ===== src/Makefs/Tests.antt =====
-- The theorem on makefs at a small tree of the host.
use weird_os.Base.{◌+◌, ◌*◌, ◌/◌, ◌-◌, [], ◌∷◌, ℕ}
use weird_os.Fs.Image.{Image}
use weird_os.Makefs.{Stat, Files, end, file, directory}

abbrev regular : Stat
regular = record { st_mode = 0x81a4; st_uid = 0; st_gid = 0 }

abbrev folder : Stat
folder = record { st_mode = 0x41ed; st_uid = 0; st_gid = 0 }

-- "..", "a", and below "d" the file "b".
abbrev host : Files
host = directory (b'.' ∷ b'.' ∷ []) folder end (
    file (97 ∷ []) regular (1 ∷ 2 ∷ [])
      (directory (100 ∷ []) folder (file (98 ∷ []) regular (3 ∷ 4 ∷ 5 ∷ []) end) end))

-- malloc of the GNU C library on 64 bits: areas of 16 k + 8 bytes.
abbrev usable : ℕ → ℕ
usable n = (n + 23) / 16 * 16 - 8
