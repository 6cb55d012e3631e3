-- ===== src/X86/Idt.antt =====
-- The interrupt descriptor table and the fault handler: kernel/arch/x86/idt.cpp. The addresses of
-- the assembly stubs are arguments; loading the table is left out.
use weird_os.Base.{
  ℕ, zero, suc, ◌+◌, ◌*◌, ◌/◌, ◌%◌, ◌^◌, ◌<◌, ◌≤◌, ◌≡◌, ◌≢◌, arith, ◌==◌, if◌then◌else◌, Bool, true,
  false, ltb,
}

pub record IdtEntry : Type 0 where
  pub offset_1 : ℕ
  pub selector : ℕ
  pub zero_byte : ℕ
  pub type_attr : ℕ
  pub offset_2 : ℕ

abbrev pub Idt : Type 0
Idt = ℕ → IdtEntry

unfoldable pub init_idt_entry : (offset selector type : ℕ) → IdtEntry
init_idt_entry offset selector type = record {
  offset_1 = offset % 2 ^ 16;
  offset_2 = offset / 2 ^ 16 % 2 ^ 16;
  selector = selector % 2 ^ 16;
  type_attr = type % 2 ^ 8;
  zero_byte = 0;
}

abbrev pub store : Idt → ℕ → IdtEntry → Idt
store idt index e i = if i == index then e else idt i

-- `index` is a uint8_t.
unfoldable pub idt_set_gate : Idt → (offset selector type index : ℕ) → Idt
idt_set_gate idt offset selector type index =
    store idt (index % 2 ^ 8) (init_idt_entry offset selector type)

abbrev pub enabled : ℕ
enabled = 0x80

abbrev pub int_gate : ℕ
int_gate = 0xe

abbrev pub trap_gate : ℕ
trap_gate = 0xf

-- `for (i = 0; i < 0xff; ++i)`
unfoldable pub fill_disabled : ℕ → Idt → Idt
fill_disabled zero idt = idt
fill_disabled (suc n) idt = store (fill_disabled n idt) n (init_idt_entry 0 0x08 int_gate)

-- The calls for the exceptions, in the order of their numbers.
unfoldable pub set_exceptions : ℕ → (isr : ℕ → ℕ) → Idt → Idt
set_exceptions zero isr idt = idt
set_exceptions (suc n) isr idt =
    store (set_exceptions n isr idt) n (init_idt_entry (isr n) 0x08 (enabled + trap_gate))

unfoldable pub init_idt : (isr : ℕ → ℕ) (isr80 : ℕ) → Idt → Idt
init_idt isr isr80 idt =
    store (set_exceptions 32 isr (fill_disabled 0xff idt)) 0x80
      (init_idt_entry isr80 0x08 (enabled + int_gate))

-- What the processor reads from a gate.
abbrev pub offset_of : IdtEntry → ℕ
offset_of e = e.offset_1 + e.offset_2 * 2 ^ 16

abbrev pub is_present : IdtEntry → Bool
is_present e = e.type_attr / 2 ^ 7 == 1

-- A gate that was initialised has the offset, selector and type that were given.
pub init_idt_entry-decode :
    (offset selector type : ℕ)
    → offset < 2 ^ 32
    → selector < 2 ^ 16
    → type < 2 ^ 8
    → (offset_of (init_idt_entry offset selector type) ≡ offset)
      × ((init_idt_entry offset selector type).selector ≡ selector)
      × ((init_idt_entry offset selector type).type_attr ≡ type)
unfolding init_idt_entry
init_idt_entry-decode offset selector type a b c = omega arith

fill_disabled_lem :
    (n : ℕ) (idt : Idt) (i : ℕ)
    → fill_disabled n idt i ≡ (if ltb i n then init_idt_entry 0 0x08 int_gate else idt i)
unfolding fill_disabled
fill_disabled_lem zero idt i = ground arith
fill_disabled_lem (suc n) idt i = ground (arith, fill_disabled_lem n idt i)

set_exceptions_lem :
    (n : ℕ) (isr : ℕ → ℕ) (idt : Idt) (i : ℕ)
    → set_exceptions n isr idt i
      ≡ (if ltb i n then init_idt_entry (isr i) 0x08 (enabled + trap_gate) else idt i)
unfolding set_exceptions
set_exceptions_lem zero isr idt i = ground arith
set_exceptions_lem (suc n) isr idt i = ground (arith, set_exceptions_lem n isr idt i)

-- Of the first 255 gates exactly those of the 32 exceptions and the system call gate 0x80 are
-- present, each with its own stub's address; gate 255 is not initialised.
pub init_idt-gates :
    (isr : ℕ → ℕ) (isr80 : ℕ) (idt : Idt) (i : ℕ)
    → isr i < 2 ^ 32
    → isr80 < 2 ^ 32
    → (i < 32
        → (offset_of (init_idt isr isr80 idt i) ≡ isr i)
          × (is_present (init_idt isr isr80 idt i) ≡ true))
      × (i ≡ 0x80
          → (offset_of (init_idt isr isr80 idt i) ≡ isr80)
            × (is_present (init_idt isr isr80 idt i) ≡ true))
      × (32 ≤ i → i ≢ 0x80 → i < 0xff → is_present (init_idt isr isr80 idt i) ≡ false)
      × (i ≡ 0xff → init_idt isr isr80 idt i ≡ idt i)
unfolding init_idt init_idt_entry
init_idt-gates isr isr80 idt i a b =
    let all = set_exceptions_lem 32 isr (fill_disabled 0xff idt) i in
    let disabled = fill_disabled_lem 0xff idt i in
    ((λ h. ground arith), (λ h. ground arith), (λ h k l. ground arith), λ h. ground arith)
