-- ===== src/Process/ThreadLaws.antt =====
-- The processes and threads of kernel/process.cpp belong to one another.
use weird_os.Base.{
  ℕ, ◌+◌, ◌%◌, ◌^◌, ◌<◌, ◌≡◌, ◌≢◌, refl, sym, ap, ◌∙◌, subst, arith, ◌==◌, ==_iff, true, false,
  Option, none, some, if◌then◌else◌, inl, inr, Bool-cases,
}
use weird_os.Process.Threads.{new, Thread, Process, Processes, process_t, init_kernel_process}

-- Every thread has a process, every process a thread of its own, and the running thread runs in the
-- running process. Numbers that are still to be given are not in use.
pub record IsConsistent (ps : Processes) : Type 0 where
  pub has_process :
      (i : ℕ) (t : Thread)
      → ps.threads i ≡ some t
      → (i < ps.next_tid) × (p : Process) × (ps.processes t.parent ≡ some p)
  pub has_thread :
      (i : ℕ) (p : Process)
      → ps.processes i ≡ some p
      → (i < ps.next_pid) × (t : Thread) × (ps.threads p.thread ≡ some t) × (t.parent ≡ i)
  pub runs :
      (i : ℕ)
      → ps.current_running_thread ≡ some i
      → (t : Thread) × (ps.threads i ≡ some t) × (ps.current_running_process ≡ some t.parent)

abbrev or_zero : Option ℕ → ℕ
or_zero none = 0
or_zero (some i) = i

-- A new entry of a table: it is found at its number, and the others at theirs.
module _ {A : Type 0} (f : ℕ → Option A) (i : ℕ) (v : A) where
  updated-here : (if i == i then some v else f i) ≡ some v
  updated-here = let here : (i == i) ≡ true = (==_iff i i).1 refl in rw here refl

  updated-other : (j : ℕ) → j ≢ i → (if j == i then some v else f j) ≡ f j
  updated-other j n = let other : (j == i) ≡ false = ground arith in rw other refl

abbrev or_thread : Thread → Option Thread → Thread
or_thread t none = t
or_thread t (some u) = u

abbrev or_process : Process → Option Process → Process
or_process p none = p
or_process p (some q) = q

-- A new process and its thread are consistent with the others, if the counters do not wrap around.
pub process_t-IsConsistent :
    (directory esp : ℕ) (ps : Processes)
    → IsConsistent ps
    → ps.next_tid + 1 < 2 ^ 32
    → ps.next_pid + 1 < 2 ^ 32
    → IsConsistent (process_t directory esp ps).1
unfolding process_t
process_t-IsConsistent directory esp ps h tids pids =
    let thread : Thread = record { state = new; esp = esp; parent = ps.next_pid } in
    let process : Process = record { directory = directory; thread = ps.next_tid } in
    record {
      has_process = λ i t e. elim (Bool-cases (i == ps.next_tid)) [
        | inl same ↦
            let at : some thread ≡ some t = rw same at e in
            subst
              (λ (u : Thread).
                (i < (ps.next_tid + 1) % 2 ^ 32)
                × (p : Process) × ((if u.parent == ps.next_pid
                      then some process
                      else ps.processes u.parent)
                    ≡ some p))
              (ap (or_thread thread) at)
              (ground arith, process, updated-here ps.processes ps.next_pid process)
        | inr other ↦
            let at : ps.threads i ≡ some t = rw other at e in
            let (young, p, owner) = h.has_process i t at in
            let (old, _, _, _) = h.has_thread t.parent p owner in
            (
              omega arith,
              p,
              updated-other ps.processes ps.next_pid process t.parent (λ q. omega arith) ∙ owner,
            )
      ];
      has_thread = λ i p e. elim (Bool-cases (i == ps.next_pid)) [
        | inl same ↦
            let at : some process ≡ some p = rw same at e in
            subst
              (λ (q : Process).
                (i < (ps.next_pid + 1) % 2 ^ 32)
                × (t : Thread) × ((if q.thread == ps.next_tid
                      then some thread
                      else ps.threads q.thread)
                    ≡ some t)
                × (t.parent ≡ i))
              (ap (or_process process) at)
              (
                ground arith,
                thread,
                updated-here ps.threads ps.next_tid thread,
                sym ((==_iff i ps.next_pid).0 same),
              )
        | inr other ↦
            let at : ps.processes i ≡ some p = rw other at e in
            let (young, t, own, back) = h.has_thread i p at in
            let (old, _, _) = h.has_process p.thread t own in
            (
              omega arith,
              t,
              updated-other ps.threads ps.next_tid thread p.thread (λ q. omega arith) ∙ own,
              back,
            )
      ];
      runs = λ i e.
          let (t, there, current) = h.runs i e in
          let (old, _, _) = h.has_process i t there in
          (t, updated-other ps.threads ps.next_tid thread i (λ q. omega arith) ∙ there, current);
    }

-- init_kernel_process makes a process with a thread, and both are the running ones.
pub init_kernel_process-IsConsistent :
    (directory esp : ℕ) (ps : Processes)
    → IsConsistent ps
    → ps.next_tid + 1 < 2 ^ 32
    → ps.next_pid + 1 < 2 ^ 32
    → IsConsistent (init_kernel_process directory esp ps)
      × ((init_kernel_process directory esp ps).current_running_process ≡ some ps.next_pid)
      × ((init_kernel_process directory esp ps).current_running_thread ≡ some ps.next_tid)
unfolding init_kernel_process process_t
init_kernel_process-IsConsistent directory esp ps h tids pids =
    let made = process_t-IsConsistent directory esp ps h tids pids in
    let process : Process = record { directory = directory; thread = ps.next_tid } in
    let thread : Thread = record { state = new; esp = esp; parent = ps.next_pid } in
    let there : (ps.next_pid == ps.next_pid) ≡ true = (==_iff ps.next_pid ps.next_pid).1 refl in
    let now : (init_kernel_process directory esp ps).current_running_thread ≡ some ps.next_tid =
      rw (init_kernel_process, there) refl in
    (
      record {
        has_process = made.has_process;
        has_thread = made.has_thread;
        runs = λ i e.
            let at : some ps.next_tid ≡ some i = sym now ∙ e in
            subst
              (λ j.
                (t : Thread) × ((if j == ps.next_tid then some thread else ps.threads j) ≡ some t)
                × (some ps.next_pid ≡ some t.parent))
              (ap (λ o. or_zero o) at) (thread, updated-here ps.threads ps.next_tid thread, refl);
      },
      refl,
      now,
    )
