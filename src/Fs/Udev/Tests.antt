-- ===== src/Fs/Udev/Tests.antt =====
-- The theorem on make_file at the devices of a kernel without a terminal.
use weird_os.Base.{ℕ, ◌≡◌, arith, none, some, [], ◌∷◌, ◌==◌, if◌then◌else◌}
use weird_os.Fs.Udev.{fifo, directory_like, UdevInode, Udev, get_inode, make_file}
use weird_os.Fs.Udev.Laws.{IsUdev, bare, bare-IsUdev, make_file-Adds}
use weird_os.Fs.Vfs.{Dirents, same_name, get_child}
use mathlib.Core.Option.{or_else}

abbrev no_dirents : Dirents
no_dirents = record { ident = λ d. []; parent = λ d. none; children = λ d. [] }

abbrev no_inodes : ℕ → UdevInode
no_inodes d = record { device = directory_like; id = 0; mode = 0 }

abbrev devices : Udev
devices = bare no_dirents 7 no_inodes

make_file-Adds_example :
    IsUdev (make_file (97 ∷ []) fifo 0x1ff devices).1
    × (get_inode (make_file (97 ∷ []) fifo 0x1ff devices).1 1
        ≡ (if 1 == 1 then some (make_file (97 ∷ []) fifo 0x1ff devices).0 else get_inode devices 1))
    × (get_child (make_file (97 ∷ []) fifo 0x1ff devices).1.dirents 7 (97 ∷ [])
        ≡ or_else
            (get_child devices.dirents 7 (97 ∷ []))
            (if same_name (97 ∷ []) (97 ∷ []) then some 8 else none))
make_file-Adds_example =
    make_file-Adds (97 ∷ []) fifo 0x1ff devices 1 (97 ∷ [])
      (bare-IsUdev no_dirents 7 no_inodes (omega arith)) (omega arith)
