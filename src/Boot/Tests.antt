-- ===== src/Boot/Tests.antt =====
-- The end of __kernel_main__ on a tree of the host with an empty directory "dev" and a program "hi".
use weird_os.Base.{ℕ, ◌+◌, ◌-◌, ◌*◌, ◌/◌, List, []}
use weird_os.Boot.{Peripherals, hi_name}
use weird_os.Clib.Memory.{Bytes}
use weird_os.Fs.Booting.{dev_name}
use weird_os.Fs.Image.{Image}
use weird_os.Fs.Udev.{directory_like, UdevInode}
use weird_os.Kmalloc.Tests.{heap_memory}
use weird_os.Loader.Tests.{program_file}
use weird_os.Makefs.{Stat, Files, end, file, directory}

abbrev regular : Stat
regular = record { st_mode = 0x81a4; st_uid = 0; st_gid = 0 }

abbrev folder : Stat
folder = record { st_mode = 0x41ed; st_uid = 0; st_gid = 0 }

abbrev host : Files
host = directory dev_name folder end (file hi_name regular program_file end)

abbrev no_inodes : ℕ → UdevInode
no_inodes d = record { device = directory_like; id = 0; mode = 0 }

abbrev no_strings : Bytes → ℕ → List ℕ
no_strings m a = []

abbrev peripherals : Peripherals
peripherals = record {
  memory = heap_memory.bytes;
  screen = record {
    line_number = 0;
    column_number = 0;
    vbuf = 0;
    video = λ a. 0;
    cursor_high = 0;
    cursor_low = 0;
  };
  buffers = λ i. 0;
  buffer_indices = λ i. 0;
}

-- malloc of the GNU C library on 64 bits: areas of 16 k + 8 bytes.
abbrev usable : ℕ → ℕ
usable n = (n + 23) / 16 * 16 - 8
