-- ===== src/User/Tests.antt =====
-- The theorems on clib/syscall.cpp and init/hi.c at concrete calls.
use weird_os.Base.{ℕ, ◌≡◌, refl, none, some, List, [], codes, get_or, ◌-◌, inl, arith}
use weird_os.Boot.{AnyInode, on_device, Peripherals, bytes_at}
use weird_os.Clib.Memory.{Bytes}
use weird_os.Fs.Image.{Image}
use weird_os.Fs.Syscalls.{Kernel, ok}
use weird_os.Fs.Udev.{vga_dev, UdevInode}
use weird_os.User.{main}
use weird_os.User.Laws.{main-prints}
use weird_os.Process.Threads.{poke_word}
use weird_os.Vga

abbrev image : Image
image = record {
  header = record {
    num_dirent = 0;
    dirents = λ i. record { name = []; parent = 0; sibling = 0; first_child = 0; inode_id = 0 };
    inodes = λ i. record { id = 0; mode = 0; uid = 0; gid = 0; size = 0; data_offset = 0 };
  };
  file_data = [];
}

abbrev no_strings : Bytes → ℕ → List ℕ
no_strings m a = []

abbrev screen_inode : UdevInode
screen_inode = record { device = vga_dev; id = 2; mode = 0x21ff }

abbrev kernel : Kernel AnyInode Peripherals
kernel = record {
  vfs = record {
    dirents = record { ident = λ d. []; parent = λ d. none; children = λ d. [] };
    root_dirent = 1;
  };
  m_inode = λ d. on_device screen_inode;
  files = λ i.
      some (record { references = 1; m_inode = on_device screen_inode; oflag = 0x10; offset = 0 });
  last_desc = 0;
  devices = record {
    memory = λ a. get_or (codes "hello, user!") (a - 0x5000) 0;
    screen = record {
      line_number = 0;
      column_number = 0;
      vbuf = 0;
      video = λ a. 0;
      cursor_high = 0;
      cursor_low = 0;
    };
    buffers = λ i. 0;
    buffer_indices = λ i. 0;
  };
}

main-prints_example :
    main image no_strings 0x6000 0x5000 kernel
    ≡ ok (record kernel {
      devices = record kernel.devices {
        memory = poke_word kernel.devices.memory 0x6000 2;
        screen = (Vga.write (codes "hello, user!") kernel.devices.screen).1;
      };
    })
unfolding bytes_at
main-prints_example =
    main-prints image no_strings kernel screen_inode 1 0x10 0 0x6000 0x5000 refl refl refl
      (inl (omega arith))
