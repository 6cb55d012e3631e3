-- ===== src/User/Laws.antt =====
-- What the calls of clib/syscall.cpp and of init/hi.c do in the kernel.
use weird_os.Base.{ℕ, zero, suc, ◌+◌, ◌≤◌, ◌<◌, ◌⊎◌, ◌≡◌, ◌∙◌, arith, List, refl, some, codes}
use weird_os.Process.Threads.{poke_word}
use weird_os.Boot.{AnyInode, on_device, Peripherals, bytes_at, drivers}
use weird_os.Clib.Memory.{Bytes}
use weird_os.Fs.Image.{Image}
use weird_os.Fs.Syscalls.{Kernel, ok}
use weird_os.Fs.Udev.{vga_dev, UdevInode}
use weird_os.Boot.Runs.{device_write-screen}
use weird_os.User.{set_word, main}
use weird_os.Vga

bytes_at-same :
    (m m' : Bytes) (buf n : ℕ)
    → ((a : ℕ) → buf ≤ a → a < buf + n → m' a ≡ m a)
    → bytes_at m' buf n ≡ bytes_at m buf n
unfolding bytes_at
bytes_at-same m m' buf zero same = refl
bytes_at-same m m' buf (suc n) same =
    rw
      (
        same buf (omega arith) (omega arith),
        bytes_at-same m m' (buf + 1) n (λ a low high. same a (omega arith) (omega arith)),
      )
      refl

poke_word-outside : (m : Bytes) (p v a : ℕ) → (a < p) ⊎ (p + 4 ≤ a) → poke_word m p v a ≡ m a
poke_word-outside m p v a out = ground arith

-- The first program, with the screen at descriptor 0 and its text in memory apart from its variable `a`,
-- stores 2 in the variable, prints "hello, user!" on the screen and changes nothing else.
pub main-prints :
    (image : Image) (string_at : Bytes → ℕ → List ℕ) (k : Kernel AnyInode Peripherals)
    (u : UdevInode) (references oflag offset a hi : ℕ)
    → k.files 0
      ≡ some (record {
        references = references;
        m_inode = on_device u;
        oflag = oflag;
        offset = offset;
      })
    → u.device ≡ vga_dev
    → bytes_at k.devices.memory hi 12 ≡ codes "hello, user!"
    → (hi + 12 ≤ a) ⊎ (a + 4 ≤ hi)
    → main image string_at a hi k
      ≡ ok (record k {
        devices = record k.devices {
          memory = poke_word k.devices.memory a 2;
          screen = (Vga.write (codes "hello, user!") k.devices.screen).1;
        };
      })
unfolding main drivers
main-prints image string_at k u references oflag offset a hi open_file screen text apart =
    let stored = set_word a 2 k in
    let kept : bytes_at stored.devices.memory hi 12 ≡ codes "hello, user!" =
      bytes_at-same k.devices.memory stored.devices.memory hi 12
        (λ b low high. poke_word-outside k.devices.memory a 2 b (omega arith))
      ∙ text in
    rw (open_file, device_write-screen u hi 12 stored.devices screen, kept) refl
