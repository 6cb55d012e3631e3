-- ===== src/Fs/Syscalls/Laws.antt =====
-- What a process can do with the descriptors of kernel/fs/fs.cpp.
use weird_os.Base.{
  ℕ, ◌+◌, ◌%◌, ◌^◌, ◌≤◌, ◌<◌, ◌≡◌, refl, ◌∙◌, subst, arith, true, false, ◌==◌, ==_iff, leb, Option,
  some, List, [], ◌∷◌, Bool-cases, Option-cases, ◌⊎◌, inl, inr, if◌then◌else◌,
}
use weird_os.Fs.Syscalls.{
  Devices, Kernel, fd_max, Called, ok, overflow, bad_open, null_file, fault, dropped, and_then,
  Regs, syscall_open_at, syscall_open, on_file, syscall_read, syscall_write, syscall_close,
  syscall_handler, run_syscalls,
}
use weird_os.Fs.Vfs.{assign, Resolved, found, missing, bad_path, resolve_path}

-- How many of the calls open a file.
unfoldable pub opens : List Regs → ℕ
opens [] = 0
opens (r ∷ rs) = (if r.eax == 0 then 1 else 0) + opens rs

Resolved-cases :
    (r : Resolved)
    → ((d : ℕ) × (r ≡ found d)) ⊎ ((r ≡ missing) ⊎ ((r ≡ Resolved.overflow) ⊎ (r ≡ bad_path)))
Resolved-cases (found d) = inl (d, refl)
Resolved-cases missing = inr (inl refl)
Resolved-cases Resolved.overflow = inr (inr (inl refl))
Resolved-cases bad_path = inr (inr (inr refl))

-- What holds of the state if the call succeeds.
abbrev Ensures : {A : Type 0} → (A → Type 0) → Called A → Type 0
Ensures P (ok a) = P a
Ensures P overflow = Unit
Ensures P bad_open = Unit
Ensures P null_file = Unit
Ensures P fault = Unit

Ensures-dropped :
    {A B : Type 0} (P : B → Type 0) (r : Called (A × B))
    → Ensures (λ x. P x.1) r
    → Ensures P (dropped r)
Ensures-dropped P (ok (a, b)) h = h
Ensures-dropped P overflow h = tt
Ensures-dropped P bad_open h = tt
Ensures-dropped P null_file h = tt
Ensures-dropped P fault h = tt

Ensures-and_then :
    {A B : Type 0} (P : A → Type 0) (Q : B → Type 0) (r : Called A) (f : A → Called B)
    → Ensures P r
    → ((a : A) → P a → Ensures Q (f a))
    → Ensures Q (and_then r f)
Ensures-and_then P Q (ok a) f h g = g a h
Ensures-and_then P Q overflow f h g = tt
Ensures-and_then P Q bad_open f h g = tt
Ensures-and_then P Q null_file f h g = tt
Ensures-and_then P Q fault f h g = tt

Ensures-imply :
    {A : Type 0} (P Q : A → Type 0) (r : Called A)
    → ((a : A) → P a → Q a)
    → Ensures P r
    → Ensures Q r
Ensures-imply P Q (ok a) g h = g a h
Ensures-imply P Q overflow g h = tt
Ensures-imply P Q bad_open g h = tt
Ensures-imply P Q null_file g h = tt
Ensures-imply P Q fault g h = tt

-- A system call that opens `n` files.
record Opened {I D : Type 0} (n : ℕ) (k k' : Kernel I D) : Type 0 where
  counted : k'.last_desc ≡ k.last_desc + n
  in_table : k.last_desc ≤ fd_max → k'.last_desc ≤ fd_max
  kept : (i : ℕ) → i < k.last_desc → k'.files i ≡ k.files i

Opened-none : {I D : Type 0} (k : Kernel I D) → Opened 0 k k
Opened-none k = record { counted = omega arith; in_table = λ l. l; kept = λ i l. refl }

Opened-trans :
    {I D : Type 0} {m n : ℕ} {k k' k'' : Kernel I D}
    → Opened m k k'
    → Opened n k' k''
    → Opened (m + n) k k''
Opened-trans a b = record {
  counted = omega (arith, a.counted, b.counted);
  in_table = λ l. b.in_table (a.in_table l);
  kept = λ i l. b.kept i (omega (arith, a.counted)) ∙ a.kept i l;
}

module _ {I D : Type 0} ⦃devices : Devices I D⦄ where
  syscall_open-Opened :
      (path : List ℕ) (oflag : ℕ) (k : Kernel I D)
      → Ensures (λ r. Opened 1 k r.1) (syscall_open path oflag k)
  unfolding syscall_open syscall_open_at
  syscall_open-Opened path oflag k = elim (Bool-cases (leb fd_max k.last_desc)) [
    | inl full ↦ rw full tt
    | inr room ↦
        let small : k.last_desc < fd_max = ground arith in
        elim (Resolved-cases (resolve_path k.vfs path)) [
          | inl (d, e) ↦
              rw (room, e)
                (record {
                  counted = omega arith;
                  in_table = λ l. omega arith;
                  kept =
                      λ i l. let other : (i == k.last_desc) ≡ false = ground arith in rw other refl;
                })
          | inr (inl e) ↦ rw (room, e) tt
          | inr (inr (inl e)) ↦ rw (room, e) tt
          | inr (inr (inr e)) ↦ rw (room, e) tt
        ]
  ]

  on_file-Opened :
      (fildes : ℕ) (method : I → D → Option (ℕ × D)) (k : Kernel I D)
      → Ensures (λ r. Opened 0 k r.1) (on_file fildes method k)
  unfolding on_file
  on_file-Opened fildes method k = elim (Bool-cases (leb fd_max fildes)) [
    | inl full ↦ rw full tt
    | inr room ↦ elim (Option-cases (k.files fildes)) [
      | inl closed ↦ rw (room, closed) tt
      | inr (f, opened) ↦ elim (Option-cases (method f.m_inode k.devices)) [
        | inl failed ↦ rw (room, opened, failed) tt
        | inr (r, e) ↦
            rw (room, opened, e)
              (record { counted = omega arith; in_table = λ l. l; kept = λ i l. refl })
      ]
    ]
  ]

  -- A system call opens one file or none.
  syscall_handler-Opened :
      (r : Regs) (k : Kernel I D)
      → Ensures (Opened (if r.eax == 0 then 1 else 0) k) (syscall_handler r k)
  unfolding syscall_handler syscall_read syscall_write syscall_close
  syscall_handler-Opened r k = elim (Bool-cases (r.eax == 0)) [
    | inl e0 ↦ rw e0 (
        Ensures-dropped (Opened 1 k) (syscall_open (devices.string_at k.devices r.ebx) r.ecx k)
          (syscall_open-Opened (devices.string_at k.devices r.ebx) r.ecx k))
    | inr n0 ↦ elim (Bool-cases (r.eax == 1)) [
      | inl e1 ↦ rw (n0, e1) (Opened-none k)
      | inr n1 ↦ elim (Bool-cases (r.eax == 2)) [
        | inl e2 ↦
            rw (n0, n1, e2)
              (Ensures-dropped (Opened 0 k) _
                (on_file-Opened r.ebx (λ i. devices.read i r.ecx r.edx r.esi) k))
        | inr n2 ↦ elim (Bool-cases (r.eax == 3)) [
          | inl e3 ↦
              rw (n0, n1, n2, e3)
                (Ensures-dropped (Opened 0 k) _
                  (on_file-Opened r.ebx (λ i. devices.write i r.ecx r.edx r.esi) k))
          | inr n3 ↦ rw (n0, n1, n2, n3) (Opened-none k)
        ]
      ]
    ]
  ]

  -- Calls that succeed have opened as many files as descriptors are in use, whatever they closed.
  run_syscalls-Opened :
      (rs : List Regs) (k : Kernel I D) → Ensures (Opened (opens rs) k) (run_syscalls rs k)
  unfolding run_syscalls opens
  run_syscalls-Opened [] k = Opened-none k
  run_syscalls-Opened (r ∷ rs) k =
      Ensures-and_then (Opened _ k) (Opened _ k) (syscall_handler r k) (run_syscalls rs)
        (syscall_handler-Opened r k)
        (λ k' first.
          Ensures-imply (Opened (opens rs) k') (Opened _ k) (run_syscalls rs k')
            (λ k'' more. Opened-trans first more) (run_syscalls-Opened rs k'))

  -- A process whose system calls succeed has got a new descriptor with each open, and no more than
  -- the table holds, whatever it closed in between.
  pub run_syscalls-descriptors :
      (rs : List Regs) (k k' : Kernel I D)
      → k.last_desc ≤ fd_max
      → run_syscalls rs k ≡ ok k'
      → (k'.last_desc ≡ k.last_desc + opens rs) × (k.last_desc + opens rs ≤ fd_max)
  run_syscalls-descriptors rs k k' room run =
      let o : Opened (opens rs) k k' =
        subst (Ensures (Opened (opens rs) k)) run (run_syscalls-Opened rs k) in
      (o.counted, omega (arith, o.counted, o.in_table room))

  -- The state behind an open that finds entry `d`.
  abbrev pub with_file : (oflag d : ℕ) → Kernel I D → Kernel I D
  with_file oflag d k = record k {
    files =
        assign k.files k.last_desc
          (some (record { references = 1; m_inode = k.m_inode d; oflag = oflag; offset = 0 }));
    last_desc = (k.last_desc + 1) % 2 ^ 32;
  }

  -- An open that finds an entry, with room in the table, returns the next descriptor. After any
  -- further system calls that succeed, a read through it is a read of that entry's inode.
  pub syscall_open-syscall_read :
      (path : List ℕ) (oflag d : ℕ) (k k' : Kernel I D) (rs : List Regs) (buf nbyte offset n : ℕ)
      (state : D)
      → k.last_desc < fd_max
      → resolve_path k.vfs path ≡ found d
      → run_syscalls rs (with_file oflag d k) ≡ ok k'
      → devices.read (k.m_inode d) buf nbyte offset k'.devices ≡ some (n, state)
      → (syscall_open path oflag k ≡ ok (k.last_desc, with_file oflag d k))
        × (syscall_read k.last_desc buf nbyte offset k' ≡ ok (0, record k' { devices = state }))
  unfolding syscall_open syscall_open_at syscall_read on_file
  syscall_open-syscall_read path oflag d k k' rs buf nbyte offset n state room e run r =
      let in_table : leb fd_max k.last_desc ≡ false = ground arith in
      let here : (k.last_desc == k.last_desc) ≡ true = (==_iff k.last_desc k.last_desc).1 refl in
      let o : Opened (opens rs) (with_file oflag d k) k' =
        subst (Ensures (Opened (opens rs) (with_file oflag d k))) run
          (run_syscalls-Opened rs (with_file oflag d k)) in
      (
        rw (syscall_open, in_table, e) refl,
        rw (syscall_read, in_table, o.kept k.last_desc (omega arith), here, r) refl,
      )
