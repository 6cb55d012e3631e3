-- ===== src/Vga/Scroll.antt =====
-- scroll_lines of kernel/drivers/vga/vga.cpp for one line, as next_line calls it.
use weird_os.Base.{
  ℕ, zero, suc, ◌+◌, ◌-◌, ◌*◌, ◌≤◌, ◌<◌, ◌≡◌, refl, ap, ◌∙◌, arith, ◌⊎◌, inl, if◌then◌else◌, ltb,
}
use native.Mathlib.Decide.{dec_lt}
use weird_os.Vga.{Video, copy_line, clear_line, copy_lines, clear_lines, scroll_lines}

-- The loop that copies lines up: line `i + k` goes to line `i + k - 1`. Here `i` is one more than
-- the first line written.
copy_lines-outside :
    (n i : ℕ) (v : Video) (a : ℕ)
    → (a < i * 160) ⊎ ((i + n) * 160 ≤ a)
    → copy_lines n (suc i) v a ≡ v a
unfolding copy_lines copy_line
copy_lines-outside zero i v a h = refl
copy_lines-outside (suc n) i v a h =
    let e : suc i + 1 ≡ suc (suc i) = omega arith in
    rw e (copy_lines-outside n (suc i) _ a (omega arith) ∙ ground arith)

copy_lines-inside :
    (n i : ℕ) (v : Video) (a : ℕ)
    → i * 160 ≤ a
    → a < (i + n) * 160
    → copy_lines n (suc i) v a ≡ v (a + 160)
unfolding copy_lines copy_line
copy_lines-inside zero i v a h l = absurd (omega arith)
copy_lines-inside (suc n) i v a h l =
    let e : suc i + 1 ≡ suc (suc i) = omega arith in
    let shift : a - (suc i - 1) * 80 * 2 + suc i * 80 * 2 ≡ a + 160 = omega arith in
    rw e (elim (dec_lt a (suc i * 160)) [
      | yes here ↦ copy_lines-outside n (suc i) _ a (inl here) ∙ ground (arith, ap v shift)
      | no above ↦ copy_lines-inside n (suc i) _ a (omega arith) (omega arith) ∙ ground arith
    ])

clear_lines_one : (i : ℕ) (v : Video) (a : ℕ) → clear_lines 1 i v a ≡ clear_line (i * 80 * 2) v a
unfolding clear_lines
clear_lines_one i v a = refl

-- Scrolling by one line moves every line up, clears the last, and writes nowhere else.
pub scroll_lines_one :
    (v : Video) (a : ℕ)
    → scroll_lines 1 v a
      ≡ (if ltb a (23 * 160) then v (a + 160) else (if ltb a (24 * 160) then 0 else v a))
unfolding scroll_lines clear_line
scroll_lines_one v a = ground (
  arith,
  clear_lines_one 23 (copy_lines 23 1 v) a,
  copy_lines-inside 23 0 v a,
  copy_lines-outside 23 0 v a,
)
