-- ===== src/X86/Gdt.antt =====
-- The global descriptor table: kernel/arch/x86/gdt.cpp. The address of the task state segment is
-- an argument; loading the table is left out.
use weird_os.Base.{
  ℕ, ◌+◌, ◌-◌, ◌*◌, ◌/◌, ◌%◌, ◌^◌, ◌<◌, ◌≡◌, ◌≢◌, refl, arith, ◌==◌, if◌then◌else◌, add32, true,
  false, ==_iff,
}

pub record GdtEntry : Type 0 where
  pub limit_low : ℕ
  pub base_low : ℕ
  pub base_middle : ℕ
  pub access : ℕ
  pub granularity : ℕ
  pub base_high : ℕ

abbrev pub Gdt : Type 0
Gdt = ℕ → GdtEntry

-- `granularity |= gran & 0xF0` adds, since the low four bits hold the limit.
unfoldable pub gdt_set_gate : Gdt → (num base limit access gran : ℕ) → Gdt
gdt_set_gate gdt num base limit access gran i =
    if i == num
    then record {
      limit_low = limit % 2 ^ 16;
      base_low = base % 2 ^ 16;
      base_middle = base / 2 ^ 16 % 2 ^ 8;
      access = access % 2 ^ 8;
      granularity = limit / 2 ^ 16 % 2 ^ 4 + (gran % 2 ^ 8 - gran % 2 ^ 4);
      base_high = base / 2 ^ 24 % 2 ^ 8;
    }
    else gdt i

-- The fields that write_tss sets; all others are cleared by memset.
pub record TssEntry : Type 0 where
  pub esp0 : ℕ
  pub ss0 : ℕ
  pub cs : ℕ
  pub ss : ℕ
  pub ds : ℕ
  pub es : ℕ
  pub fs : ℕ
  pub gs : ℕ
  pub iomap_base : ℕ

-- sizeof(tss_entry_t)
abbrev pub tss_size : ℕ
tss_size = 108

unfoldable pub write_tss : Gdt → (tss_address num ss0 esp0 : ℕ) → Gdt × TssEntry
write_tss gdt tss_address num ss0 esp0 =
    let base = tss_address in
    let limit = add32 base tss_size in
    (
      gdt_set_gate gdt num base limit 0xe9 0x00,
      record {
        esp0 = esp0;
        ss0 = ss0;
        cs = 0x0b;
        ss = 0x13;
        ds = 0x13;
        es = 0x13;
        fs = 0x13;
        gs = 0x13;
        iomap_base = tss_size;
      },
    )

-- RW, EXECUTABLE, NOT_SYS, PRVL_3 and PRESENT, joined by `|` on distinct bits.
abbrev pub code_access : ℕ → ℕ
code_access privilege = 0x80 + privilege + 0x10 + 0x2 + 0x8

abbrev pub data_access : ℕ → ℕ
data_access privilege = 0x80 + privilege + 0x10 + 0x2

unfoldable pub gdt_install : Gdt → (tss_address : ℕ) → Gdt × TssEntry
gdt_install gdt tss_address =
    let gdt = gdt_set_gate gdt 0 0 0 0 0 in
    let gdt = gdt_set_gate gdt 1 0 0xffff_ffff (code_access 0) 0xcf in
    let gdt = gdt_set_gate gdt 2 0 0xffff_ffff (data_access 0) 0xcf in
    let gdt = gdt_set_gate gdt 3 0 0xffff_ffff (code_access 0x60) 0xcf in
    let gdt = gdt_set_gate gdt 4 0 0xffff_ffff (data_access 0x60) 0xcf in
    write_tss gdt tss_address 5 0x10 0

-- What the processor reads from an entry.
abbrev pub base_of : GdtEntry → ℕ
base_of e = e.base_low + e.base_middle * 2 ^ 16 + e.base_high * 2 ^ 24

abbrev pub limit_of : GdtEntry → ℕ
limit_of e = e.limit_low + e.granularity % 2 ^ 4 * 2 ^ 16

abbrev pub flags_of : GdtEntry → ℕ
flags_of e = e.granularity / 2 ^ 4

-- The processor reads from a gate the base, the low 20 bits of the limit, the access byte and the
-- high four bits of the granularity that gdt_set_gate was given. Other gates stay as they were.
pub gdt_set_gate-decode :
    (gdt : Gdt) (num base limit access gran i : ℕ)
    → base < 2 ^ 32
    → access < 2 ^ 8
    → gran < 2 ^ 8
    → i ≢ num
    → (base_of (gdt_set_gate gdt num base limit access gran num) ≡ base)
      × (limit_of (gdt_set_gate gdt num base limit access gran num) ≡ limit % 2 ^ 20)
      × ((gdt_set_gate gdt num base limit access gran num).access ≡ access)
      × (flags_of (gdt_set_gate gdt num base limit access gran num) ≡ gran / 2 ^ 4)
      × (gdt_set_gate gdt num base limit access gran i ≡ gdt i)
unfolding gdt_set_gate
gdt_set_gate-decode gdt num base limit access gran i b a g other =
    let here : (num == num) ≡ true = (==_iff num num).1 refl in
    let there : (i == num) ≡ false = ground arith in
    (
      rw here (omega arith),
      rw here (omega arith),
      rw here (omega arith),
      rw here (omega arith),
      rw there,
    )

-- gdt_install gives the task state segment the base that it was given, and the limit
-- `base + sizeof`, where the processor expects `sizeof - 1`.
pub gdt_install-tss :
    (gdt : Gdt) (tss_address : ℕ)
    → tss_address + tss_size < 2 ^ 32
    → (base_of ((gdt_install gdt tss_address).0 5) ≡ tss_address)
      × (limit_of ((gdt_install gdt tss_address).0 5) ≡ (tss_address + tss_size) % 2 ^ 20)
      × (((gdt_install gdt tss_address).0 5).access ≡ 0xe9)
unfolding gdt_install write_tss gdt_set_gate add32
gdt_install-tss gdt tss_address h = (omega arith, omega arith, refl)
