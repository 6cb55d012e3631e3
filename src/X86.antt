-- ===== src/X86.antt =====
-- Descriptor tables and interrupts of kernel/arch/x86.
pub mod Gdt
pub mod Idt
pub mod Irq
pub mod Faults
pub mod Timer
pub mod Keymap
pub mod Keyboard
pub mod Tests
