-- ===== src/Page/FrameOps.antt =====
-- alloc_frame and free_frame of kernel/page.cpp, against the set of frames in use.
use weird_os.Base.{
  ℕ, ◌*◌, ◌/◌, ◌%◌, ◌^◌, ◌≤◌, ◌<◌, ◌≡◌, ◌≢◌, Bool, true, false, some, ◌==◌, inl, inr, arith, length,
  not,
}
use weird_os.Page.Frames.{
  Frames, Page, ok, set_frame, clear_frame, first_frame, alloc_frame, free_frame,
}
use weird_os.Page.FrameLaws.{bit_at, AreWords, Writes, first_frame-lowest, write_bit-Writes}

-- The page `page'` is present with the given rights and frame; the rest is as in `page`.
abbrev pub mapped : Page → (is_kernel is_writeable : Bool) → ℕ → Page
mapped page k w f = record page { present = true; rw_bit = w; user = not k; frame = f }

-- On a page without a frame and a set of at most 2 ^ 20 bits with a clear one, alloc_frame takes
-- the lowest free frame: it sets that bit and no other, and maps the page to that frame with the
-- rights asked for.
pub alloc_frame-lowest :
    (frames : Frames) (page : Page) (k w : Bool) (free : ℕ)
    → AreWords frames
    → length frames ≤ 2 ^ 15
    → page.frame ≡ 0
    → free < 32 * length frames
    → bit_at frames free ≡ some false
    → (f : ℕ) × (frames' : Frames) × (alloc_frame frames page k w ≡ ok frames' (mapped page k w f))
      × (bit_at frames f ≡ some false)
      × ((j : ℕ) → j < f → bit_at frames j ≡ some true)
      × Writes frames f true frames'
unfolding alloc_frame set_frame
alloc_frame-lowest frames page k w free words small fresh within clear =
    elim (first_frame-lowest frames words) [
      | inr (e, full) ↦ absurd (ground (arith, full free))
      | inl (e, bound, below) ↦
          let f = first_frame frames in
          let (frames', run, writes) = write_bit-Writes frames f true words bound in
          let none_yet : (page.frame == 0) ≡ true = ground arith in
          let addr : f * 0x1000 % 0x1_0000_0000 / 0x1000 ≡ f = omega arith in
          let field : f % 0x10_0000 ≡ f = omega arith in
          (f, frames', rw (none_yet, addr, run, field), e, below, writes)
    ]

-- free_frame hands the frame's number to clear_frame, which expects its address. So the bit of the
-- freed frame, which is not 0, stays as it was, and the bit of frame `number / 4096` is cleared
-- instead.
pub free_frame-leaks :
    (frames : Frames) (page : Page)
    → AreWords frames
    → page.frame ≢ 0
    → page.frame < 32 * length frames
    → (frames' : Frames) × (free_frame frames page ≡ ok frames' (record page { frame = 0 }))
      × (bit_at frames' page.frame ≡ bit_at frames page.frame)
      × Writes frames (page.frame / 0x1000) false frames'
unfolding free_frame clear_frame
free_frame-leaks frames page words some_frame within =
    let (frames', run, writes) =
      write_bit-Writes frames (page.frame / 0x1000) false words (omega arith) in
    let nz : (page.frame == 0) ≡ false = ground arith in
    (frames', rw (nz, run), ground (arith, writes.bits page.frame), writes)
