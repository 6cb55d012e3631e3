-- ===== src/Page/DirectoryLaws.antt =====
-- What the directories of kernel/page.cpp map.
use weird_os.Base.{ℕ, ◌+◌, ◌/◌, ◌%◌, ◌^◌, ◌<◌, ◌≡◌, ◌≢◌, ap, none, some, arith, add32}
use weird_os.Page.Directory.{fork_page, get_phys}

-- In a new directory the first 4 MB of the higher half map to the first 4 MB of memory, and the
-- kernel heap maps to the next 4 MB.
pub get_phys-fork_page :
    (phys address : ℕ)
    → address < 0x40_0000
    → (get_phys (0xc000_0000 + address) (fork_page phys) ≡ some address)
      × (get_phys (0xd000_0000 + address) (fork_page phys) ≡ some (0x40_0000 + address))
unfolding get_phys fork_page add32
get_phys-fork_page phys address h =
    let kernel : (0xc000_0000 + address) / 0x1000 / 0x400 ≡ 768 = omega arith in
    let low : (0xc000_0000 + address) % 0x40_0000 ≡ address = omega arith in
    let heap : (0xd000_0000 + address) / 0x1000 / 0x400 ≡ 832 = omega arith in
    let low' : (0xd000_0000 + address) % 0x40_0000 ≡ address = omega arith in
    (rw (kernel, low) (ap some (omega arith)), rw (heap, low') (ap some (omega arith)))

-- No other address of a new directory has a physical address: get_phys stops at its assertion.
pub get_phys-fork_page-none :
    (phys address : ℕ)
    → address / 2 ^ 22 ≢ 0xc000_0000 / 2 ^ 22
    → address / 2 ^ 22 ≢ 0xd000_0000 / 2 ^ 22
    → get_phys address (fork_page phys) ≡ none
unfolding get_phys fork_page
get_phys-fork_page-none phys address h k = ground arith
