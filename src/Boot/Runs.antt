-- ===== src/Boot/Runs.antt =====
-- What __kernel_main__ of kernel/arch/x86/start.cpp comes to on a packed tree: the first program runs
-- with the screen at descriptor 0.
use weird_os.Base.{ℕ, ◌≡◌, refl, some, List}
use weird_os.Boot.{
  AnyInode, Peripherals, bytes_at, device_write, drivers, Boot, after_exec, o_wronly,
}
use weird_os.Clib.Memory.{Bytes}
use weird_os.Fs.Booting.Mounting.{devices}
use weird_os.Fs.Image.{Image}
use weird_os.Fs.Syscalls.{Kernel, ok, syscall_write}
use weird_os.Fs.Udev.{vga_dev, UdevInode, Udev}
use weird_os.Fs.Vfs.{Vfs, assign}
use weird_os.Kmalloc.Coalesced.{Coalesced}
use weird_os.Kmalloc.Kernel as Heaps
use weird_os.Kmalloc.Layout.{Block}
use weird_os.Process.{State, Executed}
use weird_os.Process.Starting.{Starts}
use weird_os.Vga

-- What `Starts` says of the program, which runs or did not start; and what is written to descriptor 0 is
-- printed on the screen. The next open takes descriptor 0 again.
pub data Boots (fuel : ℕ) (string_at : Bytes → ℕ → List ℕ) (content : List ℕ) (image : Image)
    (start stop : ℕ) (bs : List Block) (p : Peripherals) (s : State) : Boot → Type 0 where
  runs :
      {e : Executed} (k : Kernel AnyInode Peripherals)
      → Starts fuel content start stop bs s e
      → k.devices.screen ≡ p.screen
      → k.last_desc ≡ 0
      → ((k' : Kernel AnyInode Peripherals) (buf n offset : ℕ)
          → k'.files ≡ k.files
          → syscall_write ⦃devices = drivers image string_at⦄ 0 buf n offset k'
            ≡ ok (
              0,
              record k' {
                devices = record k'.devices {
                  screen = (Vga.write (bytes_at k'.devices.memory buf n) k'.devices.screen).1;
                };
              },
            ))
      → Boots fuel string_at content image start stop bs p s (after_exec k e)

-- The bytes at `buf` printed on the screen.
abbrev pub shows : (buf n : ℕ) → Peripherals → Peripherals
shows buf n p = record p { screen = (Vga.write (bytes_at p.memory buf n) p.screen).1 }

pub device_write-screen :
    (u : UdevInode) (buf n : ℕ) (p : Peripherals)
    → u.device ≡ vga_dev
    → device_write u buf n p ≡ ((Vga.write (bytes_at p.memory buf n) p.screen).0, shows buf n p)
unfolding device_write
device_write-screen u buf n p e = rw (device_write, e) refl

-- Descriptor 0 after the open.
abbrev opened : Kernel AnyInode Peripherals → (d : ℕ) → Kernel AnyInode Peripherals
opened k d = record k {
  files =
      assign k.files 0
        (some (record { references = 1; m_inode = k.m_inode d; oflag = o_wronly; offset = 0 }));
}
