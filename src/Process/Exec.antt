-- ===== src/Process/Exec.antt =====
-- exec_process of kernel/process.cpp on a well-formed heap: which bytes the program finds in memory.
use weird_os.Kmalloc.Coalesced.{Coalesced}
use weird_os.Kmalloc.Kernel.{Kernel}
use weird_os.Kmalloc.Memory.{Memory}
