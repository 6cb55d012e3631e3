-- ===== src/Page/Frames.antt =====
-- The bit set of frames of kernel/page.cpp. A 32-bit word of the set is the list of its bits, the
-- lowest first, so `w |= 1 << off` writes one bit. `none` is an access outside the array.
use weird_os.Base.{
  ◌++◌, replicate, zero, suc, ℕ, ◌+◌, ◌*◌, ◌/◌, ◌%◌, Bool, true, false, Option, none, some, List,
  [], ◌∷◌, ◌==◌, ◌&&◌, not, if◌then◌else◌, get_elem?, set,
}

abbrev pub Word : Type 0
Word = List Bool

abbrev pub Frames : Type 0
Frames = List Word

-- A page table entry; `frame` is 20 bits wide. The unused bits are left out.
pub record Page : Type 0 where
  pub present : Bool
  pub rw_bit : Bool
  pub user : Bool
  pub accessed : Bool
  pub dirty : Bool
  pub frame : ℕ

-- INDEX_FROM_BIT and OFFSET_FROM_BIT
abbrev pub index_from_bit : ℕ → ℕ
index_from_bit a = a / 32

abbrev pub offset_from_bit : ℕ → ℕ
offset_from_bit a = a % 32

-- `frames[idx] = ...` with bit `off` written.
unfoldable pub write_bit : Frames → ℕ → Bool → Option Frames
write_bit frames frame v = elim (get_elem? frames (index_from_bit frame)) [
  | none ↦ none
  | some w ↦ some (set frames (index_from_bit frame) (set w (offset_from_bit frame) v))
]

unfoldable pub set_frame : Frames → (frame_addr : ℕ) → Option Frames
set_frame frames frame_addr = write_bit frames (frame_addr / 0x1000) true

unfoldable pub clear_frame : Frames → (frame_addr : ℕ) → Option Frames
clear_frame frames frame_addr = write_bit frames (frame_addr / 0x1000) false

-- `w == 0xFFFFFFFF`
unfoldable pub all_ones : Word → Bool
all_ones [] = true
all_ones (b ∷ bs) = b && all_ones bs

-- The inner loop: the first clear bit of a word, counted from `j`.
unfoldable pub first_clear : Word → (j : ℕ) → Option ℕ
first_clear [] j = none
first_clear (b ∷ bs) j = elim b [ true ↦ first_clear bs (j + 1) | false ↦ some j ]

-- The outer loop, over the words of the set; `i` is the index of the first of them.
unfoldable pub first_frame_from : Frames → (i : ℕ) → ℕ
first_frame_from [] i = 0
first_frame_from (w ∷ ws) i =
    let rest = first_frame_from ws (i + 1) in
    if all_ones w then rest else elim (first_clear w 0) [ none ↦ rest | some j ↦ i * 32 + j ]

unfoldable pub first_frame : Frames → ℕ
unfolding first_frame_from first_clear all_ones
first_frame frames = first_frame_from frames 0

-- The result of the operations on a page: `out_of_bounds` is an access outside the array.
pub data Framed : Type 0 where
  ok : Frames → Page → Framed
  out_of_bounds : Framed

-- `assert(idx != (uint32_t)-1)` tests a value that first_frame never returns.
unfoldable pub alloc_frame : Frames → Page → (is_kernel is_writeable : Bool) → Framed
alloc_frame frames page is_kernel is_writeable =
    if not (page.frame == 0)
    then ok frames page
    else (let idx = first_frame frames in
        elim (set_frame frames (idx * 0x1000 % 0x1_0000_0000)) [
          | none ↦ out_of_bounds
          | some frames' ↦ ok frames' (record page {
            present = true;
            rw_bit = is_writeable;
            user = not is_kernel;
            frame = idx % 0x10_0000;
          })
        ])

unfoldable pub free_frame : Frames → Page → Framed
free_frame frames page =
    if page.frame == 0 then ok frames page else elim (clear_frame frames page.frame) [
      | none ↦ out_of_bounds
      | some frames' ↦ ok frames' (record page { frame = 0 })
    ]

-- `frames[i] = 0xffffffff` for the first words.
unfoldable pub lock_words : (n : ℕ) → Frames → Frames
lock_words zero frames = frames
lock_words (suc n) [] = []
lock_words (suc n) (w ∷ ws) = replicate 32 true ∷ lock_words n ws

-- The set that initialise_paging builds for 64 MB of memory: the low 2048 frames are in use. The
-- array is cleared for as many bytes as it has words, so `behind`, the words after the first
-- quarter, stays as memory was.
unfoldable pub initial_frames : (behind : Frames) → Frames
initial_frames behind =
    let nframes = 0x400_0000 / 0x1000 in
    lock_words (index_from_bit 0x800)
      (replicate (index_from_bit nframes / 4) (replicate 32 false) ++ behind)
