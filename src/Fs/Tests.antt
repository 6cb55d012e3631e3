-- ===== src/Fs/Tests.antt =====
-- The theorems on kernel/fs at a small tree of entries and a pipe.
use weird_os.Base.{◌+◌, ◌-◌, ◌<◌, ◌≡◌, refl, arith, none, some, [], ◌∷◌, inl, if◌then◌else◌, ◌==◌}
use weird_os.Fs.Fifo.{Fifo, read_fifo, read_fifo-oldest}
use weird_os.Fs.Mount.{Mounts, mount_device-Mounts}
use weird_os.Fs.Vfs.{Vfs, resolve_path, mount_device, mounted, get_child, find_child, same_name}
use weird_os.Fs.Resolve.{walk, resolve_path-walk}
use weird_os.Util.Text.{split, split_loop, substr}

abbrev pipe : Fifo
pipe = record { buffer = 0x1000; buffer_index = 5; memory = λ a. a }

read_fifo-oldest_example :
    ((read_fifo 0x100 2 pipe).0 ≡ 2)
    × ((read_fifo 0x100 2 pipe).1.buffer_index ≡ 5 - 2)
    × (1 < 2 → (read_fifo 0x100 2 pipe).1.memory (0x100 + 1) ≡ 0x1000 + 1)
    × (1 < 5 - 2 → (read_fifo 0x100 2 pipe).1.memory (0x1000 + 1) ≡ 0x1000 + (2 + 1))
read_fifo-oldest_example =
    read_fifo-oldest 0x100 2 pipe 1 (omega arith) (omega arith) (inl (omega arith))

-- The root 1 holds "a", which is 2, and this holds "b", which is 3.
abbrev tree : Vfs
tree = record {
  dirents = record {
    ident = λ d. if d == 2 then 97 ∷ [] else (if d == 3 then 98 ∷ [] else []);
    parent = λ d. if d == 2 then some 1 else (if d == 3 then some 2 else none);
    children = λ d. if d == 1 then 2 ∷ [] else (if d == 2 then 3 ∷ [] else []);
  };
  root_dirent = 1;
}

abbrev tree_of_a : Vfs
tree_of_a = record {
  dirents = record {
    ident = λ d. if d == 2 then 97 ∷ [] else [];
    parent = λ d. if d == 2 then some 1 else none;
    children = λ d. if d == 1 then 2 ∷ [] else [];
  };
  root_dirent = 1;
}

resolve_path-walk_example :
    resolve_path tree (b'/' ∷ 97 ∷ b'/' ∷ 98 ∷ [])
    ≡ walk tree.dirents 1 (split b'/' (97 ∷ b'/' ∷ 98 ∷ []))
unfolding split split_loop substr
resolve_path-walk_example =
    resolve_path-walk tree (97 ∷ b'/' ∷ 98 ∷ []) (omega arith, (omega arith, tt))

-- A device with root 9 is mounted over "a".
mount_device-Mounts_example :
    (v : Vfs) × (mount_device (b'/' ∷ 97 ∷ []) 9 tree_of_a ≡ mounted v)
    × Mounts tree_of_a (97 ∷ []) 9 v
unfolding split split_loop substr get_child find_child same_name
mount_device-Mounts_example =
    mount_device-Mounts tree_of_a 97 [] 9 2 refl (omega arith) ((λ e. omega arith), tt) refl refl
