-- ===== src/X86/Tests.antt =====
-- The theorems on kernel/arch/x86 and the keyboard driver at concrete tables and keys.
use weird_os.Base.{
  ℕ, ◌+◌, ◌*◌, ◌/◌, ◌%◌, ◌^◌, ◌≤◌, ◌<◌, ◌≡◌, ◌≢◌, true, false, none, some, [], ◌∷◌, arith,
}
use weird_os.X86.Timer.{sleep, sleep-ticks}
use weird_os.X86.Gdt.{Gdt, gdt_set_gate, base_of, limit_of, flags_of, gdt_set_gate-decode}
use weird_os.X86.Idt.{Idt, init_idt, offset_of, is_present, init_idt-gates}
use weird_os.X86.Irq.{install_irq_routine, irq_handler, end_of_interrupt, irq_handler-installed}
use weird_os.X86.Keyboard.{Keyboard}

abbrev empty_gdt : Gdt
empty_gdt = λ _. record {
  limit_low = 0;
  base_low = 0;
  base_middle = 0;
  access = 0;
  granularity = 0;
  base_high = 0;
}

abbrev empty_idt : Idt
empty_idt = λ _. record { offset_1 = 0; selector = 0; zero_byte = 0; type_attr = 0; offset_2 = 0 }

abbrev stub : ℕ → ℕ
stub i = 0xc010_0000 + 16 * (i % 64)

gdt_set_gate-decode_example :
    (base_of (gdt_set_gate empty_gdt 1 0x1234_5678 0xffff_ffff 0x9a 0xcf 1) ≡ 0x1234_5678)
    × (limit_of (gdt_set_gate empty_gdt 1 0x1234_5678 0xffff_ffff 0x9a 0xcf 1)
        ≡ 0xffff_ffff % 2 ^ 20)
    × ((gdt_set_gate empty_gdt 1 0x1234_5678 0xffff_ffff 0x9a 0xcf 1).access ≡ 0x9a)
    × (flags_of (gdt_set_gate empty_gdt 1 0x1234_5678 0xffff_ffff 0x9a 0xcf 1) ≡ 0xcf / 2 ^ 4)
    × (gdt_set_gate empty_gdt 1 0x1234_5678 0xffff_ffff 0x9a 0xcf 2 ≡ empty_gdt 2)
gdt_set_gate-decode_example =
    gdt_set_gate-decode empty_gdt 1 0x1234_5678 0xffff_ffff 0x9a 0xcf 2 (omega arith) (omega arith)
      (omega arith) (λ e. ground (arith, e))

abbrev page_fault : ℕ
page_fault = 14

init_idt-gates_example :
    (page_fault < 32
      → (offset_of (init_idt stub 0xc010_8000 empty_idt page_fault) ≡ stub page_fault)
        × (is_present (init_idt stub 0xc010_8000 empty_idt page_fault) ≡ true))
    × (page_fault ≡ 0x80
        → (offset_of (init_idt stub 0xc010_8000 empty_idt page_fault) ≡ 0xc010_8000)
          × (is_present (init_idt stub 0xc010_8000 empty_idt page_fault) ≡ true))
    × (32 ≤ page_fault
        → page_fault ≢ 0x80
        → page_fault < 0xff
        → is_present (init_idt stub 0xc010_8000 empty_idt page_fault) ≡ false)
    × (page_fault ≡ 0xff → init_idt stub 0xc010_8000 empty_idt page_fault ≡ empty_idt page_fault)
init_idt-gates_example =
    init_idt-gates stub 0xc010_8000 empty_idt page_fault (omega arith) (omega arith)

abbrev count_ticks : ℕ → ℕ
count_ticks n = n + 1

irq_handler-installed_example :
    (irq_handler (install_irq_routine (λ _. none) 0 count_ticks) (32 + 0) 5
      ≡ (count_ticks 5, end_of_interrupt (32 + 0)))
    × (irq_handler (install_irq_routine (λ _. none) 0 count_ticks) (32 + 1) 5
        ≡ irq_handler (λ _. none) (32 + 1) 5)
    × (0 < 8 → end_of_interrupt (32 + 0) ≡ (0x20, 0x20) ∷ [])
    × (8 ≤ 0 → end_of_interrupt (32 + 0) ≡ (0xa0, 0x20) ∷ (0x20, 0x20) ∷ [])
irq_handler-installed_example =
    irq_handler-installed (λ _. none) 0 1 count_ticks 5 (λ e. ground (arith, e))

abbrev keyboard : Keyboard
keyboard = record { shift_down = false; read_ptr = 0; bytes = λ _. 0 }

sleep-ticks_example : sleep 6 0xffff_fffe 5 ≡ some ((0xffff_fffe + 5) % 2 ^ 32)
sleep-ticks_example = sleep-ticks 6 0xffff_fffe 5 (omega arith) (omega arith) (omega arith)
