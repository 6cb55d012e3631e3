-- ===== src/Fs/Syscalls.antt =====
-- File descriptors and the system calls on them: kernel/fs/fs.cpp and kernel/syscall.cpp, for the
-- running process. The virtual methods of inodes and what they change are an interface.
pub mod Laws
pub mod RamDisk
pub mod Tests
use weird_os.Base.{ℕ, ◌+◌, ◌%◌, ◌^◌, ◌==◌, leb, if◌then◌else◌, Option, none, some, List, [], ◌∷◌}
use weird_os.Fs.Vfs.{Vfs, assign, found, resolve_path}

-- The virtual methods, on inodes `I` and the state `D` of devices and memory: what they return, or
-- `none` for a fault. `string_at` is the string at an address.
pub record Devices (I D : Type 0) : Type 0 where
  pub read : I → (buf nbyte offset : ℕ) → D → Option (ℕ × D)
  pub write : I → (buf n offset : ℕ) → D → Option (ℕ × D)
  pub string_at : D → (address : ℕ) → List ℕ

pub record File (I : Type 0) : Type 0 where
  pub references : ℕ
  pub m_inode : I
  pub oflag : ℕ
  pub offset : ℕ

abbrev pub fd_max : ℕ
fd_max = 512

-- The mounted file system with the inode of each entry, the process's fdtable, and the devices.
pub record Kernel (I D : Type 0) : Type 0 where
  pub vfs : Vfs
  pub m_inode : ℕ → I
  pub files : ℕ → Option (File I)
  pub last_desc : ℕ
  pub devices : D

-- `overflow` is an index behind the table, `bad_open` the failed assertion, `null_file` a descriptor
-- that is not open, `fault` one of the device.
pub data Called (A : Type 0) : Type 0 where
  ok : A → Called A
  overflow : Called A
  bad_open : Called A
  null_file : Called A
  fault : Called A

module _ {I D : Type 0} ⦃devices : Devices I D⦄ where
  unfoldable pub syscall_open_at :
      (fildes : ℕ) (path : List ℕ) (oflag : ℕ) → Kernel I D → Called (ℕ × Kernel I D)
  syscall_open_at fildes path oflag k =
      if leb fd_max fildes then overflow else elim (resolve_path k.vfs path) [
        | found dir ↦ ok (
          fildes,
          record k {
            files = assign k.files fildes (
                some
                  (record { references = 1; m_inode = k.m_inode dir; oflag = oflag; offset = 0 }));
          },
        )
        | _ ↦ bad_open
      ]

  unfoldable pub syscall_open : (path : List ℕ) (oflag : ℕ) → Kernel I D → Called (ℕ × Kernel I D)
  unfolding syscall_open_at
  syscall_open path oflag k =
      syscall_open_at k.last_desc path oflag (record k { last_desc = (k.last_desc + 1) % 2 ^ 32 })

  -- Both return 0, whatever the device returned.
  unfoldable pub on_file :
      (fildes : ℕ) → (I → D → Option (ℕ × D)) → Kernel I D → Called (ℕ × Kernel I D)
  on_file fildes method k = if leb fd_max fildes then overflow else elim (k.files fildes) [
    | none ↦ null_file
    | some f ↦ elim (method f.m_inode k.devices) [
      | none ↦ fault
      | some (n, d) ↦ ok (0, record k { devices = d })
    ]
  ]

  unfoldable pub syscall_read : (fildes buf nbyte offset : ℕ) → Kernel I D → Called (ℕ × Kernel I D)
  unfolding on_file
  syscall_read fildes buf nbyte offset k = on_file fildes (λ i. devices.read i buf nbyte offset) k

  unfoldable pub syscall_write : (fildes buf n offset : ℕ) → Kernel I D → Called (ℕ × Kernel I D)
  unfolding on_file
  syscall_write fildes buf n offset k = on_file fildes (λ i. devices.write i buf n offset) k

  unfoldable pub syscall_close : (fildes : ℕ) → Kernel I D → Called (ℕ × Kernel I D)
  syscall_close fildes k = ok (0, k)

-- The registers that syscall_handler reads.
pub record Regs : Type 0 where
  pub eax : ℕ
  pub ebx : ℕ
  pub ecx : ℕ
  pub edx : ℕ
  pub esi : ℕ

-- The result of a call is dropped: the handler writes no register.
abbrev pub dropped : {A B : Type 0} → Called (A × B) → Called B
dropped (ok (a, b)) = ok b
dropped overflow = overflow
dropped bad_open = bad_open
dropped null_file = null_file
dropped fault = fault

abbrev pub and_then : {A B : Type 0} → Called A → (A → Called B) → Called B
and_then (ok a) f = f a
and_then overflow f = overflow
and_then bad_open f = bad_open
and_then null_file f = null_file
and_then fault f = fault

module _ {I D : Type 0} ⦃devices : Devices I D⦄ where
  -- Any other number prints a message.
  unfoldable pub syscall_handler : Regs → Kernel I D → Called (Kernel I D)
  unfolding syscall_open syscall_close syscall_read syscall_write
  syscall_handler r k =
      if r.eax == 0
      then dropped (syscall_open (devices.string_at k.devices r.ebx) r.ecx k)
      else if r.eax == 1
      then dropped (syscall_close r.ebx k)
      else if r.eax == 2
      then dropped (syscall_read r.ebx r.ecx r.edx r.esi k)
      else if r.eax == 3
      then dropped (syscall_write r.ebx r.ecx r.edx r.esi k)
      else ok k

  -- System calls one after the other.
  unfoldable pub run_syscalls : List Regs → Kernel I D → Called (Kernel I D)
  unfolding syscall_handler
  run_syscalls [] k = ok k
  run_syscalls (r ∷ rs) k = and_then (syscall_handler r k) (run_syscalls rs)
