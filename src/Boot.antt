-- ===== src/Boot.antt =====
-- The end of __kernel_main__ in kernel/arch/x86/start.cpp: the file systems, the text screen as
-- descriptor 0, and the first program; and vga_dev of kernel/drivers/vga/vga.cpp among the devices.
-- The parts set up before (console, descriptor tables, interrupts, paging, timer) have modules of
-- their own. The entries, inodes and files are numbered objects here: that init_fs, init_vga and
-- syscall_open_at allocate them on the kernel heap is not modelled, and the heap, the frames and the
-- directory are given as exec_process finds them.
pub mod Runs
pub mod Tests
use weird_os.Base.{ℕ, zero, suc, ◌+◌, ltb, if◌then◌else◌, Option, none, some, List, [], ◌∷◌}
use weird_os.Clib.Memory.{Bytes}
use weird_os.Fs.Booting.{init_fs, init_vga, vga_name, dev_name}
use weird_os.Fs.Fifo.{Fifo, read_fifo, write_fifo}
use weird_os.Fs.Image.{Image}
use weird_os.Fs.Initrd.{Inode, Cache, read}
use weird_os.Fs.Syscalls.{Devices, Kernel, ok, syscall_open_at}
use weird_os.Fs.Syscalls.RamDisk.{store}
use weird_os.Fs.Udev.{directory_like, fifo, vga_dev, UdevInode, Udev}
use weird_os.Fs.Vfs.{Vfs, assign, found, resolve_path}
use weird_os.Kmalloc.Kernel as Heaps
use weird_os.Loader.{ElfLayout}
use weird_os.Process.{State, Executed, started, exec_process}
use weird_os.Vga
use weird_os.Vga.{Screen}

-- An inode of the initial ramdisk or of the device file system.
pub data AnyInode : Type 0 where
  on_ramdisk : Inode → AnyInode
  on_device : UdevInode → AnyInode

-- Memory, the screen, and the pipes' members by the numbers of their inodes.
pub record Peripherals : Type 0 where
  pub memory : Bytes
  pub screen : Screen
  pub buffers : ℕ → ℕ
  pub buffer_indices : ℕ → ℕ

unfoldable pub bytes_at : Bytes → (buf n : ℕ) → List ℕ
bytes_at m buf zero = []
bytes_at m buf (suc n) = m buf ∷ bytes_at m (buf + 1) n

abbrev pub pipe : (id : ℕ) → Peripherals → Fifo
pipe id p = record { buffer = p.buffers id; buffer_index = p.buffer_indices id; memory = p.memory }

abbrev pub with_pipe : (id : ℕ) → ℕ × Fifo → Peripherals → ℕ × Peripherals
with_pipe id (n, f) p =
    (n, record p { memory = f.memory; buffer_indices = assign p.buffer_indices id f.buffer_index })

-- vga_dev::read and vga_dev::write, fifo::read and fifo::write, and those of inode.
unfoldable pub device_read : UdevInode → (buf nbyte : ℕ) → Peripherals → ℕ × Peripherals
device_read u buf nbyte p = elim u.device [
  | directory_like ↦ (0, p)
  | fifo ↦ with_pipe u.id (read_fifo buf nbyte (pipe u.id p)) p
  | vga_dev ↦ (0, p)
]

unfoldable pub device_write : UdevInode → (buf n : ℕ) → Peripherals → ℕ × Peripherals
unfolding bytes_at
device_write u buf n p = elim u.device [
  | directory_like ↦ (0, p)
  | fifo ↦ with_pipe u.id (write_fifo buf n (pipe u.id p)) p
  | vga_dev ↦
      let (i, screen) = Vga.write (bytes_at p.memory buf n) p.screen in
      (i, record p { screen = screen })
]

-- The virtual methods.
unfoldable pub drivers : Image → (string_at : Bytes → ℕ → List ℕ) → Devices AnyInode Peripherals
unfolding device_read device_write store
drivers image string_at = record {
  read = λ i buf nbyte offset p. elim i [
    | on_device u ↦ some (device_read u buf nbyte p)
    | on_ramdisk r ↦ elim (read image r nbyte offset) [
      | none ↦ none
      | some (n, bs) ↦ some (n, record p { memory = store bs buf p.memory })
    ]
  ];
  write = λ i buf n offset p. elim i [
    | on_device u ↦ some (device_write u buf n p)
    | on_ramdisk r ↦ some (0, p)
  ];
  string_at = λ p address. string_at p.memory address;
}

-- `device_program`: a device as the first program, whose size nothing sets.
pub data Boot : Type 0 where
  running : ElfLayout → State → Kernel AnyInode Peripherals → Boot
  halted : Executed → Boot
  no_root : Boot
  no_screen : Boot
  no_program : Boot
  device_program : Boot

abbrev pub after_exec : Kernel AnyInode Peripherals → Executed → Boot
after_exec k (started layout s) =
    running layout s (record k { devices = record k.devices { memory = s.memory.bytes } })
after_exec k e = halted e

-- The entries made by the ramdisk are older than those of the devices.
abbrev pub inodes : Cache → Udev → ℕ → AnyInode
inodes c u d = if ltb d c.next then on_ramdisk (c.m_inode d) else on_device (u.m_inode d)

abbrev pub dev_vga : List ℕ
dev_vga = b'd' ∷ b'e' ∷ b'v' ∷ b'/' ∷ vga_name

abbrev pub hi_name : List ℕ
hi_name = b'h' ∷ b'i' ∷ []

-- The kernel process with a cleared fdtable.
abbrev pub kernel_process : Cache → Udev → Vfs → Peripherals → Kernel AnyInode Peripherals
kernel_process c u v p = record {
  vfs = v;
  m_inode = inodes c u;
  files = λ i. none;
  last_desc = 0;
  devices = p;
}

-- O_WRONLY
abbrev pub o_wronly : ℕ
o_wronly = 0x10

unfoldable pub run_hi :
    (fuel : ℕ) → Heaps.Kernel → Image → Kernel AnyInode Peripherals → State → Boot
unfolding exec_process
run_hi fuel heap image k s = elim (resolve_path k.vfs (b'/' ∷ hi_name)) [
  | found d ↦ elim (k.m_inode d) [
    | on_device u ↦ device_program
    | on_ramdisk i ↦ after_exec k (exec_process fuel heap i.size (read image i) s)
  ]
  | _ ↦ no_program
]

-- From init_fs on. `s` is the state in which exec_process is called, with the heap behind the
-- allocations before it.
unfoldable pub kernel_main :
    (fuel : ℕ) (m_inode : ℕ → UdevInode) (string_at : Bytes → ℕ → List ℕ)
    → Heaps.Kernel
    → Image
    → Peripherals
    → State
    → Boot
unfolding init_fs init_vga syscall_open_at run_hi
kernel_main fuel m_inode string_at heap image p s = elim (init_fs 0x100 m_inode image) [
  | none ↦ no_root
  | some (c, u, v) ↦
      let (u', v') = init_vga u v in
      elim (syscall_open_at ⦃devices = drivers image string_at⦄ 0 (b'/' ∷ dev_vga) o_wronly
        (kernel_process c u' v' p)) [ ok (fildes, k) ↦ run_hi fuel heap image k s | _ ↦ no_screen ]
]
