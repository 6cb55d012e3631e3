-- ===== src/X86/Faults.antt =====
-- The fault handler of kernel/arch/x86/idt.cpp. What it prints is a list of texts and numbers;
-- register cr2 is an argument.
use weird_os.Base.{
  ℕ, ◌/◌, ◌%◌, ◌<◌, ◌≡◌, Bool, true, false, ◌==◌, not, ltb, if◌then◌else◌, List, [], ◌∷◌, ◌++◌,
  get_or, arith, ◌≢◌, ◌≤◌,
}
use Prim.Native.String.{String}

pub data Out : Type 0 where
  text : String → Out
  number : ℕ → Out

unfoldable pub exception_messages : List String
exception_messages =
    "Division By Zero Exception" ∷ "Debug Exception" ∷ "Non Maskable Interrupt Exception"
    ∷ "Breakpoint Exception" ∷ "Into Detected Overflow Exception" ∷ "Out of Bounds Exception"
    ∷ "Invalid Opcode Exception" ∷ "No Coprocessor Exception" ∷ "Double Fault Exception"
    ∷ "Coprocessor Segment Overrun Exception" ∷ "Bad TSS Exception"
    ∷ "Segment Not Present Exception" ∷ "Stack Fault Exception"
    ∷ "General Protection Fault Exception" ∷ "Page Fault Exception" ∷ "Unknown Interrupt Exception"
    ∷ "Coprocessor Fault Exception" ∷ "Alignment Check Exception" ∷ "Machine Check Exception"
    ∷ "Reserved" ∷ "Reserved" ∷ "Reserved" ∷ "Reserved" ∷ "Reserved" ∷ "Reserved" ∷ "Reserved"
    ∷ "Reserved" ∷ "Reserved" ∷ "Reserved" ∷ "Reserved" ∷ "Reserved" ∷ "Reserved" ∷ []

-- The texts are printed and, if the flag says so, the processor halts for good.
pub record Fault : Type 0 where
  pub printed : List Out
  pub halted : Bool

-- Bits 0 to 3 of the error code.
abbrev pub err_bit : ℕ → ℕ → Bool
err_bit err weight = err / weight % 2 == 1

abbrev pub when : Bool → String → List Out
when b s = if b then text s ∷ [] else []

unfoldable pub page_fault_report : (err_code cr2 : ℕ) → List Out
page_fault_report err_code cr2 =
    text "Page fault! ( "
    ∷ (when (not (err_bit err_code 1)) "present "
        ++ (when (err_bit err_code 2) "read-only "
            ++ (when (err_bit err_code 4) "user-mode "
                ++ (when (err_bit err_code 8) "reserved " ++ (text ") at 0x" ∷ number cr2 ∷ [])))))

unfoldable pub first_report : (int_no err_code cr2 : ℕ) → List Out
first_report int_no err_code cr2 =
    if int_no == 14
    then page_fault_report err_code cr2
    else if int_no == 13
    then text "segment: 0x" ∷ number err_code ∷ []
    else []

unfoldable pub cpu_fault_handler : (int_no err_code cr2 : ℕ) → Fault
cpu_fault_handler int_no err_code cr2 =
    let report = first_report int_no err_code cr2 in
    if ltb int_no 32
    then record {
      printed =
          report ++ (text (get_or exception_messages int_no "") ∷ text ". System Halted!" ∷ []);
      halted = true;
    }
    else record { printed = report; halted = false }

-- The processor halts exactly on the 32 exceptions; then the last texts name the exception. Only
-- a page fault and a general protection fault print anything before.
pub cpu_fault_handler-halts :
    (int_no err_code cr2 : ℕ)
    → ((cpu_fault_handler int_no err_code cr2).halted ≡ ltb int_no 32)
      × (int_no < 32
          → (front : List Out) × ((cpu_fault_handler int_no err_code cr2).printed
              ≡ front
                ++ (text (get_or exception_messages int_no "") ∷ text ". System Halted!" ∷ []))
            × (int_no ≢ 14 → int_no ≢ 13 → front ≡ []))
      × (32 ≤ int_no → (cpu_fault_handler int_no err_code cr2).printed ≡ [])
unfolding cpu_fault_handler first_report
cpu_fault_handler-halts int_no err_code cr2 = (
  ground arith,
  (λ h. (first_report int_no err_code cr2, ground arith, (λ a b. ground arith))),
  (λ h. ground arith),
)
