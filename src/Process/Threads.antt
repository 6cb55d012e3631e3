-- ===== src/Process/Threads.antt =====
-- Processes and threads of kernel/process.cpp and includes/kernel/process.h, at their numbers; the
-- counters next_tid and next_pid count them. The switch of stacks is assembly.
use weird_os.Base.{ℕ, ◌+◌, ◌/◌, ◌%◌, ◌^◌, ◌==◌, Option, none, some, if◌then◌else◌}
use weird_os.Clib.Memory.{Bytes, poke, memset}

pub data ThreadState : Type 0 where
  ready : ThreadState
  waiting : ThreadState
  running : ThreadState
  terminated : ThreadState
  new : ThreadState

pub record Thread : Type 0 where
  pub state : ThreadState
  pub esp : ℕ
  pub parent : ℕ

-- `directory` is the physical address of the page directory.
pub record Process : Type 0 where
  pub directory : ℕ
  pub thread : ℕ

pub record Processes : Type 0 where
  pub next_tid : ℕ
  pub next_pid : ℕ
  pub threads : ℕ → Option Thread
  pub processes : ℕ → Option Process
  pub current_running_process : Option ℕ
  pub current_running_thread : Option ℕ
  pub memory : Bytes

-- sizeof(trap_frame_t): thirteen words.
abbrev pub trap_frame_size : ℕ
trap_frame_size = 52

-- A uint32_t in the processor's byte order.
abbrev pub poke_word : Bytes → ℕ → ℕ → Bytes
poke_word m a v =
    poke (poke (poke (poke m a (v % 256)) (a + 1) (v / 2 ^ 8 % 256)) (a + 2) (v / 2 ^ 16 % 256))
      (a + 3) (v / 2 ^ 24 % 256)

-- The cleared frame with the four marks: ebx, edx, ecx and eax are its words 4 to 7.
unfoldable pub trap_frame : (esp : ℕ) → Bytes → Bytes
unfolding memset
trap_frame esp m =
    let m1 = poke_word (memset esp 0 trap_frame_size m) (esp + 28) 0xeaf in
    let m2 = poke_word m1 (esp + 16) 0xebf in
    let m3 = poke_word m2 (esp + 24) 0xecf in poke_word m3 (esp + 20) 0xedf

abbrev update {ℓ} : {A : Type ℓ} → (ℕ → Option A) → ℕ → A → ℕ → Option A
update f i v j = if j == i then some v else f j

-- The constructors of thread_t: `esp` is given, or it is the result of kmalloc(0x2000).
unfoldable pub thread_t : (parent esp : ℕ) → Processes → ℕ × Processes
unfolding trap_frame
thread_t parent esp ps = (
  ps.next_tid,
  record ps {
    next_tid = (ps.next_tid + 1) % 2 ^ 32;
    threads = update ps.threads ps.next_tid (record { state = new; esp = esp; parent = parent });
    memory = trap_frame esp ps.memory;
  },
)

-- The constructor of process_t, with the stack that its thread gets from kmalloc. The cleared fdtable is
-- in Fs.Syscalls.
unfoldable pub process_t : (directory esp : ℕ) → Processes → ℕ × Processes
unfolding thread_t
process_t directory esp ps =
    let id = ps.next_pid in
    let (thread, ps') = thread_t id esp (record ps { next_pid = (id + 1) % 2 ^ 32 }) in
    (
      id,
      record ps' {
        processes = update ps'.processes id (record { directory = directory; thread = thread });
      },
    )

unfoldable pub init_kernel_process : (directory esp : ℕ) → Processes → Processes
unfolding process_t
init_kernel_process directory esp ps =
    let (id, ps') = process_t directory esp ps in
    record ps' {
      current_running_process = some id;
      current_running_thread = elim (ps'.processes id) [ none ↦ none | some p ↦ some p.thread ];
    }

-- thread_t::switch_to up to the assembly, with what is passed to do_switch: the new stack and the page
-- directory; `none` is a thread or a process that does not exist.
unfoldable pub switch_to : (thread : ℕ) → Processes → Option ((ℕ × ℕ) × Processes)
switch_to thread ps = elim (ps.threads thread) [
  | none ↦ none
  | some t ↦ elim (ps.processes t.parent) [
    | none ↦ none
    | some p ↦ some (
      (t.esp, p.directory),
      record ps { current_running_thread = some thread; current_running_process = some t.parent },
    )
  ]
]
