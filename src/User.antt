-- ===== src/User.antt =====
-- The user's C library, clib/syscall.cpp, and the first program, init/hi.c. A call through `int $0x80`
-- sets some registers and leaves the others as they are; the interrupt's entry restores all of them.
pub mod Laws
pub mod Tests
use weird_os.Base.{ℕ, List}
use weird_os.Boot.{AnyInode, Peripherals, drivers}
use weird_os.Clib.Memory.{Bytes}
use weird_os.Fs.Image.{Image}
use weird_os.Process.Threads.{poke_word}
use weird_os.Fs.Syscalls.{Devices, Kernel, Called, ok, Regs, and_then, syscall_handler}

-- syscall with up to four arguments.
unfoldable pub syscall_0 : (num : ℕ) → Regs → Regs
syscall_0 num r = record r { eax = num }

unfoldable pub syscall_1 : (num a : ℕ) → Regs → Regs
syscall_1 num a r = record r { eax = num; ebx = a }

unfoldable pub syscall_2 : (num a b : ℕ) → Regs → Regs
syscall_2 num a b r = record r { eax = num; ebx = a; ecx = b }

unfoldable pub syscall_3 : (num a b c : ℕ) → Regs → Regs
syscall_3 num a b c r = record r { eax = num; ebx = a; ecx = b; edx = c }

unfoldable pub syscall_4 : (num a b c d : ℕ) → Regs → Regs
syscall_4 num a b c d r = record { eax = num; ebx = a; ecx = b; edx = c; esi = d }

module _ {I D : Type 0} ⦃devices : Devices I D⦄ where
  -- isr80: pusha saves the registers, syscall_handler gets their place and writes none of them, and popa
  -- takes them back.
  unfoldable pub isr80 : Regs → Kernel I D → Called (Regs × Kernel I D)
  unfolding syscall_handler
  isr80 r k = let frame = r in and_then (syscall_handler frame k) (λ k'. ok (frame, k'))

  -- `int $0x80`, with eax behind it as the result.
  unfoldable pub interrupt : Regs → Kernel I D → Called (ℕ × Kernel I D)
  unfolding isr80
  interrupt r k = and_then (isr80 r k) (λ (x : Regs × Kernel I D). ok (x.0.eax, x.1))

  unfoldable pub write : (fildes buf size : ℕ) → Regs → Kernel I D → Called (ℕ × Kernel I D)
  unfolding interrupt syscall_3
  write fildes buf size r k = interrupt (syscall_3 3 fildes buf size r) k

  unfoldable pub read : (fildes buf size : ℕ) → Regs → Kernel I D → Called (ℕ × Kernel I D)
  unfolding interrupt syscall_3
  read fildes buf size r k = interrupt (syscall_3 2 fildes buf size r) k

-- `a = v`, for a global variable of four bytes at `a`.
abbrev pub set_word : (a v : ℕ) → Kernel AnyInode Peripherals → Kernel AnyInode Peripherals
set_word a v k = record k { devices = record k.devices { memory = poke_word k.devices.memory a v } }

-- main, up to its endless loop, on the devices of the kernel; `a` is the address of the variable `a`,
-- and `hi` what the variable `hi` holds, the address of the text.
unfoldable pub main :
    (image : Image) (string_at : Bytes → ℕ → List ℕ) (a hi : ℕ)
    → Kernel AnyInode Peripherals
    → Called (Kernel AnyInode Peripherals)
unfolding syscall_handler drivers
main image string_at a hi k =
    syscall_handler ⦃devices = drivers image string_at⦄
      (record { eax = 3; ebx = 0; ecx = hi; edx = 12; esi = 0 }) (set_word a 2 k)
