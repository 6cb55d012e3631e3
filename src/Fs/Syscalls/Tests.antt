-- ===== src/Fs/Syscalls/Tests.antt =====
-- The theorems on system calls at concrete calls.
use weird_os.Base.{
  ◌+◌, ◌*◌, ◌/◌, ◌-◌, ℕ, ◌+◌, ◌≤◌, ◌≡◌, arith, refl, some, none, List, [], ◌∷◌, take, if◌then◌else◌,
  ◌==◌,
}
use weird_os.Clib.Memory.{Bytes}
use weird_os.Fs.Image.{Image, is_dir}
use weird_os.Fs.Initrd.{Inode, Cache}
use weird_os.Fs.Initrd.Booted.{mount_initrd}
use weird_os.Makefs.Names.{lookup, entry_of}
use weird_os.Fs.Syscalls.{
  Devices, Kernel, fd_max, ok, Regs, run_syscalls, syscall_handler, syscall_open, syscall_open_at,
  syscall_close, syscall_read,
}
use weird_os.Fs.Syscalls.Laws.{
  opens, with_file, run_syscalls-descriptors, syscall_open-syscall_read,
}
use weird_os.Fs.Syscalls.RamDisk.{ramdisk, new_process, store, makefs-syscall_read}
use weird_os.Fs.Vfs.{Vfs, resolve_path, resolve_loop, get_child, find_child, same_name}
use weird_os.Makefs.{Stat, Files, end, file, directory, makefs, is_dot}
use weird_os.Util.Text.{split, split_loop, substr}

-- The root 1 holds "a", which is 2.
abbrev tree : Vfs
tree = record {
  dirents = record {
    ident = λ d. if d == 2 then 97 ∷ [] else [];
    parent = λ d. if d == 2 then some 1 else none;
    children = λ d. if d == 1 then 2 ∷ [] else [];
  };
  root_dirent = 1;
}

-- An inode is a byte, which every read stores at the buffer; the string at an address is "/a".
abbrev byte_devices : Devices ℕ Bytes
byte_devices = record {
  read = λ i buf nbyte offset m. some (1, λ a. if a == buf then i else m a);
  write = λ i buf n offset m. some (n, m);
  string_at = λ m a. b'/' ∷ 97 ∷ [];
}

abbrev kernel : Kernel ℕ Bytes
kernel = record {
  vfs = tree;
  m_inode = λ d. 10 + d;
  files = λ i. none;
  last_desc = 0;
  devices = λ a. 0;
}

-- Open, close, and open again.
abbrev calls : List Regs
calls =
    record { eax = 0; ebx = 0; ecx = 0; edx = 0; esi = 0 }
    ∷ record { eax = 1; ebx = 0; ecx = 0; edx = 0; esi = 0 }
    ∷ record { eax = 0; ebx = 0; ecx = 0; edx = 0; esi = 0 }
    ∷ []

abbrev opened_once : Kernel ℕ Bytes
opened_once = with_file ⦃devices = byte_devices⦄ 0 2 kernel

abbrev opened_twice : Kernel ℕ Bytes
opened_twice = with_file ⦃devices = byte_devices⦄ 0 2 opened_once

run_syscalls-descriptors_example :
    (opened_twice.last_desc ≡ 0 + opens calls) × (0 + opens calls ≤ fd_max)
unfolding run_syscalls syscall_handler syscall_open syscall_open_at syscall_close resolve_path
    resolve_loop get_child find_child same_name
run_syscalls-descriptors_example =
    run_syscalls-descriptors ⦃devices = byte_devices⦄ calls kernel opened_twice (omega arith) refl

abbrev one_close : List Regs
one_close = record { eax = 1; ebx = 0; ecx = 0; edx = 0; esi = 0 } ∷ []

abbrev stored_byte : Bytes
stored_byte = λ a. if a == 500 then 12 else 0

syscall_open-syscall_read_example :
    (syscall_open ⦃devices = byte_devices⦄ (b'/' ∷ 97 ∷ []) 0 kernel ≡ ok (0, opened_once))
    × (syscall_read ⦃devices = byte_devices⦄ 0 500 1 0 opened_once
        ≡ ok (0, record opened_once { devices = stored_byte }))
unfolding run_syscalls syscall_handler syscall_close resolve_path resolve_loop get_child find_child
    same_name
syscall_open-syscall_read_example =
    syscall_open-syscall_read ⦃devices = byte_devices⦄ (b'/' ∷ 97 ∷ []) 0 2 kernel opened_once
      one_close 500 1 0 1 stored_byte (omega arith) refl refl refl

abbrev regular : Stat
regular = record { st_mode = 0x81a4; st_uid = 0; st_gid = 0 }

abbrev folder : Stat
folder = record { st_mode = 0x41ed; st_uid = 0; st_gid = 0 }

-- "a", and below "d" the file "b".
abbrev host : Files
host =
    file (97 ∷ []) regular (1 ∷ 2 ∷ [])
      (directory (100 ∷ []) folder (file (98 ∷ []) regular (3 ∷ 4 ∷ 5 ∷ []) end) end)

abbrev zeroes : Bytes
zeroes a = 0

abbrev no_strings : Bytes → ℕ → List ℕ
no_strings m a = []

-- malloc of the GNU C library on 64 bits: areas of 16 k + 8 bytes.
abbrev usable : ℕ → ℕ
usable n = (n + 23) / 16 * 16 - 8

makefs-syscall_read_example :
    (image : Image) × (c : Cache) × (v : Vfs) × (k k' : Kernel Inode Bytes) × (makefs usable 4
        folder host
      ≡ some image)
    × (mount_initrd 0x100 image ≡ some (c, v))
    × (syscall_open ⦃devices = ramdisk image no_strings⦄
          (b'/' ∷ 100 ∷ b'/' ∷ 98 ∷ [])
          0
          (new_process c v zeroes)
        ≡ ok (0, k))
    × (syscall_read ⦃devices = ramdisk image no_strings⦄ 0 500 2 0 k ≡ ok (0, k'))
    × (k'.devices ≡ store (take 2 (3 ∷ 4 ∷ 5 ∷ [])) 500 zeroes)
unfolding split split_loop substr is_dir lookup entry_of is_dot same_name
    weird_os.Makefs.Encodes.entries weird_os.Makefs.Encodes.bytes
makefs-syscall_read_example =
    makefs-syscall_read usable 4 folder host (100 ∷ b'/' ∷ 98 ∷ []) (3 ∷ 4 ∷ 5 ∷ []) no_strings
      zeroes 0 500 2 (omega arith) (omega arith) (omega arith, (omega arith, (omega arith, tt), tt))
      (omega arith, (omega arith, (omega arith, tt), tt)) (refl, (refl, (refl, tt), tt))
      (omega arith, (omega arith, tt)) refl
