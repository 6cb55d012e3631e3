-- ===== src/Lib.antt =====
-- Verification of weird-os, a small 32-bit kernel.
--
-- Parts of the program and the files that model them:
--
--   - Base: shared names, lists measured by native numbers, Boolean tests, 32-bit words.
--   - Kmalloc: the kernel heap, kernel/kmalloc.cpp and includes/kernel/kmalloc.h. Memory holds
--     block headers at addresses, and bytes; a command reads and writes them and may stop at an
--     assertion of the source. Blocks has the operations on single headers (create_heap,
--     merge_blocks, make_aligned_block, create_new_block_header), Alloc has get_suitable_block,
--     alloc_internal, free and krealloc, Kernel has kmalloc with its variants and operators new
--     and delete. Layout says what it means that the doubly linked headers represent a list of
--     blocks; Merge, Split, Candidates, Choose, Free and Allocate say what each operation makes of that
--     list; Coalesced, Live, Restore and Contract say what callers rely on. Move, Grow and
--     Reallocate do the same for krealloc, which finds its block again by Find. Info is heap_info,
--     which prints the blocks on the console; what get_suitable_block prints by it before an
--     assertion fails is not part of the run.
--   - Page: kernel/page.cpp. Frames is the bit set of physical frames with alloc_frame and
--     free_frame; Directory has fork_page and get_phys, Tables get_page and page_allocator::allocate on
--     the kernel heap, and Present what they come to where the page tables are there.
--     FrameLaws, FrameOps and DirectoryLaws hold the theorems. alloc_frame is what allocate
--     calls for every page.
--   - Vga: kernel/drivers/vga/vga.cpp, the text screen with its hardware cursor. Console is the
--     kernel's standard output on it, with __assert of kernel/assertk.cpp; Shows and Laws below it say
--     what reaches the screen.
--   - X86: kernel/arch/x86 (Gdt, Idt, Irq, Timer, and Faults for cpu_fault_handler) and the
--     keyboard (with Keymap), kernel/drivers/ps2/ps2.cpp with getc of kernel/clib/stdio.cpp. irq_install adds
--     its gates to the table that init_idt fills, and the keyboard handler is a routine that
--     irq_handler calls.
--   - Clib: kernel/clib/string.cpp (Memory, Itoa) and kernel/clib/stdio.cpp: Printf has the
--     characters that vfprintf prints, for which it calls itoa, and Streams the functions that put them
--     on a stream.
--   - Util: includes/util/hashmap.h (HashMap), includes/util/string.h on the kernel heap
--     (Strings) and its split on lists of characters (Text), the
--     linked list of includes/util/list.h (NodeList, with iteration in Visits) and the reference counts of
--     includes/util/rc.h (Counters, with CounterLaws).
--   - Fs: path names and mounting of kernel/fs/vfs.cpp on the entries of includes/kernel/fs/fs.h
--     (Vfs, with Resolve and Mount) and the pipe of kernel/fs/fifo.cpp (Fifo), which moves its
--     bytes by memcpy. Image is the format of the initial ramdisk and Initrd its reader,
--     kernel/fs/initrd.cpp: cache makes entries and inodes of the header's records, Shows, Caches
--     and Trees say which tree of the host they show, Lookup which entries names lead to, and Booted mounts
--     them. Udev is kernel/fs/udev.cpp, and Booting is init_fs of kernel/fs/fs.cpp, which mounts
--     both, with init_vga of kernel/drivers/vga/vga.cpp; Devices, Beside and Screen say which paths lead
--     where then. Syscalls has the descriptors of kernel/fs/fs.cpp and the dispatch of kernel/syscall.cpp
--     over the virtual methods of inodes; RamDisk fills these with the initial ramdisk.
--   - Makefs: scripts/makefs.c, which packs a tree of the host into an image. Encodes says what a
--     header says of a tree, Names what names lead to in the tree, Entries and Traverse that the tool
--     writes such a header, and Tree that its main does.
--   - Loader: elf_loader of includes/kernel/elf.h, which maps pages by page_allocator::allocate
--     and copies segments by memcpy. Layout says what load does as a whole, and Moved that it does not
--     matter where the file lies.
--   - Process: kernel/process.cpp. Threads has the processes and threads (with ThreadLaws), Process
--     itself exec_process, which reads a file into the kernel heap and loads it; Image and Exec
--     have the theorems. Paging is initialise_paging of kernel/page.cpp, which ends in
--     init_kernel_process, and Paging/Ready what it sets up.
--   - Boot: __kernel_main__ of kernel/arch/x86/start.cpp from init_fs on, with the virtual methods of
--     all inodes. Runs composes makefs, the file systems, the loader and the screen.
--   - User: clib/syscall.cpp and init/hi.c, which call syscall_handler.
--
-- Numbers are natural numbers; sums and differences of uint32_t in the heap and in paging wrap
-- around by add32 and sub32. Loops over the heap run on fuel, one unit for each header; the
-- theorems take fuel beyond the number of blocks, which is enough since no loop visits a block
-- twice. sleep takes fuel for every tick. Loops over strings take fuel beyond their length, itoa
-- beyond its 10 digits, and page_allocator::allocate beyond the 2 ^ 20 pages of the address space.
-- initrd::cache follows the links of a header, which could form a cycle; its fuel bounds the depth
-- of the calls, and 2 ^ 8 is enough for the 255 entries of an image that makefs wrote.
--
-- What readdir, fstat and read return to makefs is the tree that it is given. The bytes of the area that
-- malloc returns are a parameter, since traverse_dir writes one byte behind the size it asks for; its
-- theorems ask that the area has that byte. The areas for the header and for the data have the size asked
-- for. The two devices keep
-- their inodes apart, and share the entries. The image lies outside the memory that a process can
-- write.
--
-- A header that is not there, a null pointer, an index outside the frame set and an argument of
-- the wrong type for printf are results of their own, and so is a key stored behind key_buffer. Scancodes,
-- register cr2 and the addresses of assembly stubs are arguments.
--
-- The program's memory and the heap are the same bytes, but the headers of the heap are kept apart, so
-- the theorems on exec_process ask that no segment touches the heap. A page table that the directory
-- lacks comes from the kernel heap by kmalloc_ap (Page/Tables); the theorems on load and exec_process are
-- about directories that have the tables of the program's segments and of its stack, since page-aligned
-- allocation has no theorem. exec_process is given the heap as it finds it: what init_fs, init_vga and
-- syscall_open_at allocate there before it is not modelled.
--
-- initialise_paging keeps the frame set, the page directory and the members of the process apart from the
-- bytes of memory; its sizes of structures are those of the 32-bit ABI.
--
-- Not modelled: the load of CR3, vectors, the directory streams of opendir, the order of the
-- calls in __kernel_main__ before init_fs, assembly but for isr80, and serial output.
pub mod Base
pub mod Kmalloc
pub mod Page
pub mod Vga
pub mod X86
pub mod Clib
pub mod Util
pub mod Fs
pub mod Loader
pub mod Process
pub mod Boot
pub mod User
pub mod Makefs
