-- ===== src/X86/Irq.antt =====
-- Interrupt requests: kernel/arch/x86/irq.cpp. A routine changes a state of any type; port writes
-- are listed as pairs of port and value, in order.
use weird_os.Base.{
  ℕ, zero, suc, ◌+◌, ◌-◌, ◌%◌, ◌^◌, ◌<◌, ◌≤◌, ◌≡◌, ◌≢◌, refl, arith, ◌==◌, if◌then◌else◌, true,
  false, List, [], ◌∷◌, ◌++◌, leb, ltb, ◌&&◌, ◌⊎◌, ==_iff, Option, none, some,
}
use weird_os.X86.Idt.{Idt, idt_set_gate, init_idt_entry, offset_of, is_present}

abbrev pub PortWrites : Type 0
PortWrites = List (ℕ × ℕ)

unfoldable pub irq_remap : PortWrites
irq_remap =
    (0x20, 0x11)
    ∷ (0xa0, 0x11)
    ∷ (0x21, 0x20)
    ∷ (0xa1, 0x28)
    ∷ (0x21, 0x04)
    ∷ (0xa1, 0x02)
    ∷ (0x21, 0x01)
    ∷ (0xa1, 0x01)
    ∷ (0x21, 0x0)
    ∷ (0xa1, 0x0)
    ∷ []

-- The calls of irq_install, in the order of their numbers; `irq` gives the addresses of the stubs
-- irq0 to irq15.
unfoldable pub set_irqs : ℕ → (irq : ℕ → ℕ) → Idt → Idt
set_irqs zero irq idt = idt
set_irqs (suc n) irq idt = idt_set_gate (set_irqs n irq idt) (irq n) 0x08 0x8e (32 + n)

unfoldable pub irq_install : (irq : ℕ → ℕ) → Idt → Idt × PortWrites
irq_install irq idt = (set_irqs 16 irq idt, irq_remap)

-- The ends of interrupt, to the slave and to the master controller.
unfoldable pub end_of_interrupt : (int_no : ℕ) → PortWrites
end_of_interrupt int_no = (if leb 40 int_no then (0xa0, 0x20) ∷ [] else []) ++ ((0x20, 0x20) ∷ [])

module _ {S : Type 0} where
  unfoldable pub install_irq_routine :
      (ℕ → Option (S → S)) → (port : ℕ) → (S → S) → ℕ → Option (S → S)
  install_irq_routine routines port handler i = if i == port then some handler else routines i

  unfoldable pub irq_handler : (ℕ → Option (S → S)) → (int_no : ℕ) → S → S × PortWrites
  irq_handler routines int_no s =
      let s' : S = elim (routines (int_no - 32)) [ none ↦ s | some handler ↦ handler s ] in
      (s', end_of_interrupt int_no)

set_irqs_lem :
    (n : ℕ) (irq : ℕ → ℕ) (idt : Idt) (i : ℕ)
    → n ≤ 16
    → set_irqs n irq idt i
      ≡ (if leb 32 i && ltb i (32 + n) then init_idt_entry (irq (i - 32)) 0x08 0x8e else idt i)
unfolding set_irqs idt_set_gate
set_irqs_lem zero irq idt i h = ground arith
set_irqs_lem (suc n) irq idt i h =
    let small : (32 + n) % 2 ^ 8 ≡ 32 + n = omega arith in
    rw small (ground (arith, set_irqs_lem n irq idt i (omega arith)))

-- irq_install makes the gates 32 to 47 present interrupt gates with the stubs' addresses, and
-- leaves all other gates as they were.
pub irq_install-gates :
    (irq : ℕ → ℕ) (idt : Idt) (i : ℕ)
    → ((j : ℕ) → irq j < 2 ^ 32)
    → (32 ≤ i
        → i < 48
        → (offset_of ((irq_install irq idt).0 i) ≡ irq (i - 32))
          × (is_present ((irq_install irq idt).0 i) ≡ true))
      × ((i < 32) ⊎ (48 ≤ i) → (irq_install irq idt).0 i ≡ idt i)
unfolding irq_install init_idt_entry
irq_install-gates irq idt i small =
    let gate = set_irqs_lem 16 irq idt i (omega arith) in
    let word = small (i - 32) in ((λ h k. ground arith), λ h. ground arith)

-- irq_handler runs the routine that was installed last for the request and no other, and then
-- ends the interrupt at the master, after the slave if the slave raised it.
pub irq_handler-installed :
    {S : Type 0} (routines : ℕ → Option (S → S)) (port other : ℕ) (handler : S → S) (s : S)
    → other ≢ port
    → (irq_handler (install_irq_routine routines port handler) (32 + port) s
        ≡ (handler s, end_of_interrupt (32 + port)))
      × (irq_handler (install_irq_routine routines port handler) (32 + other) s
          ≡ irq_handler routines (32 + other) s)
      × (port < 8 → end_of_interrupt (32 + port) ≡ (0x20, 0x20) ∷ [])
      × (8 ≤ port → end_of_interrupt (32 + port) ≡ (0xa0, 0x20) ∷ (0x20, 0x20) ∷ [])
unfolding irq_handler install_irq_routine end_of_interrupt
irq_handler-installed routines port other handler s differ =
    let here : 32 + port - 32 ≡ port = omega arith in
    let there : 32 + other - 32 ≡ other = omega arith in
    let same : (port == port) ≡ true = (==_iff port port).1 refl in
    let ne : (other == port) ≡ false = ground arith in
    (rw (here, same), rw (there, ne), (λ h. ground arith), λ h. ground arith)
