-- ===== src/Fs/Syscalls/RamDisk.antt =====
-- A process that opens and reads a file of the initial ramdisk: the virtual methods of
-- kernel/fs/initrd.cpp under the system calls of kernel/fs/fs.cpp. The image is not among the bytes
-- that a process can write.
use weird_os.Base.{
  ℕ, ◌+◌, ◌-◌, ◌^◌, ◌<◌, ◌≡◌, refl, subst, arith, none, some, List, [], ◌∷◌, length, take, get_or,
  leb, ltb, ◌&&◌, if◌then◌else◌, All,
}
use weird_os.Clib.Memory.{Bytes}
use weird_os.Fs.Image.{Image}
use weird_os.Fs.Initrd.{Inode, Cache, read}
use weird_os.Fs.Initrd.Booted.{mount_initrd, ReadsAs, makefs-resolve_path}
use weird_os.Fs.Initrd.Caches.{ModesAgree}
use weird_os.Makefs.Names.{a_file, a_directory, lookup}
use weird_os.Fs.Resolve.{Short}
use weird_os.Fs.Syscalls.{Devices, Kernel, ok, run_syscalls, syscall_open, syscall_read}
use weird_os.Fs.Syscalls.Laws.{with_file, syscall_open-syscall_read}
use weird_os.Fs.Vfs.{Vfs, resolve_path}
use weird_os.Makefs.{Stat, Files, makefs}
use weird_os.Makefs.Encodes.{entries, bytes, ShortNames, PathsFit}
use weird_os.Util.Text.{split}

-- The bytes at `buf`.
unfoldable pub store : List ℕ → (buf : ℕ) → Bytes → Bytes
store bs buf m a = if leb buf a && ltb a (buf + length bs) then get_or bs (a - buf) 0 else m a

-- rdfs_inode::read and rdfs_inode::write.
unfoldable pub ramdisk : Image → (string_at : Bytes → ℕ → List ℕ) → Devices Inode Bytes
unfolding store read
ramdisk image string_at = record {
  read = λ i buf nbyte offset m. elim (read image i nbyte offset) [
    | none ↦ none
    | some (n, bs) ↦ some (n, store bs buf m)
  ];
  write = λ i buf n offset m. some (0, m);
  string_at = string_at;
}

ramdisk-read :
    (image : Image) (string_at : Bytes → ℕ → List ℕ) (i : Inode) (content : List ℕ) (buf nbyte : ℕ)
    (m : Bytes)
    → read image i nbyte 0 ≡ some (length (take nbyte content), take nbyte content)
    → (ramdisk image string_at).read i buf nbyte 0 m
      ≡ some (length (take nbyte content), store (take nbyte content) buf m)
unfolding ramdisk
ramdisk-read image string_at i content buf nbyte m e = rw (ramdisk, e) refl

-- The process that init_kernel_process makes, with a cleared fdtable.
abbrev pub new_process : Cache → Vfs → Bytes → Kernel Inode Bytes
new_process c v memory = record {
  vfs = v;
  m_inode = c.m_inode;
  files = λ i. none;
  last_desc = 0;
  devices = memory;
}

-- A tree of the host has at most 254 entries, fewer than 2 ^ 32 - 255 bytes, names that fit, paths for
-- which malloc leaves a byte behind the size asked for, and modes by which the kernel and the host agree
-- on what is a directory. It is packed and mounted, and the names of an absolute path, of fewer than
-- 255 characters each, lead to a file in it. A new process that opens the path gets descriptor 0, and reading from it puts the
-- bytes of the host's file, up to the length asked for, into the process's buffer and changes no
-- other byte. The result of the read is 0.
pub makefs-syscall_read :
    (usable : ℕ → ℕ) (len : ℕ) (stat : Stat) (files : Files) (path content : List ℕ)
    (string_at : Bytes → ℕ → List ℕ) (memory : Bytes) (oflag buf nbyte : ℕ)
    → entries files < 0xff
    → bytes files + 0xff < 2 ^ 32
    → ShortNames files
    → PathsFit usable len files
    → ModesAgree files
    → All Short (split b'/' path)
    → lookup (a_directory files) (split b'/' path) ≡ some (a_file content)
    → (image : Image) × (c : Cache) × (v : Vfs) × (k k' : Kernel Inode Bytes) × (makefs usable len
          stat files
        ≡ some image)
      × (mount_initrd 0x100 image ≡ some (c, v))
      × (syscall_open ⦃devices = ramdisk image string_at⦄
            (b'/' ∷ path)
            oflag
            (new_process c v memory)
          ≡ ok (0, k))
      × (syscall_read ⦃devices = ramdisk image string_at⦄ 0 buf nbyte 0 k ≡ ok (0, k'))
      × (k'.devices ≡ store (take nbyte content) buf memory)
unfolding ramdisk run_syscalls
makefs-syscall_read usable len stat files path content string_at memory oflag buf nbyte room small
      short paths modes names e =
    let (image, c, v, made, mounts, reads) =
      makefs-resolve_path usable len stat files path room small short paths modes names in
    let (d, found_d, _, prefix) : ReadsAs image c (resolve_path v (b'/' ∷ path))
        (some (a_file content)) =
      subst (ReadsAs image c (resolve_path v (b'/' ∷ path))) e reads in
    let k : Kernel Inode Bytes =
      with_file ⦃devices = ramdisk image string_at⦄ oflag d (new_process c v memory) in
    let k' : Kernel Inode Bytes = record k { devices = store (take nbyte content) buf memory } in
    let (opened, done) =
      syscall_open-syscall_read ⦃devices = ramdisk image string_at⦄ (b'/' ∷ path) oflag d
        (new_process c v memory) k [] buf nbyte 0 (length (take nbyte content))
        (store (take nbyte content) buf memory) (omega arith) found_d refl
        (ramdisk-read image string_at (c.m_inode d) content buf nbyte memory (prefix nbyte)) in
    (image, c, v, k, k', made, mounts, opened, done, refl)
