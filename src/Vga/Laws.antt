-- ===== src/Vga/Laws.antt =====
-- The cursor of kernel/drivers/vga/vga.cpp stays on the screen, and nothing is written outside.
use weird_os.Base.{
  ℕ, ◌+◌, ◌*◌, ◌%◌, ◌^◌, ◌≤◌, ◌<◌, ◌≡◌, ◌≢◌, refl, ◌∙◌, List, [], ◌∷◌, arith, length, false, ◌==◌,
  leb, if◌then◌else◌, Bool-cases, inl, inr,
}
use weird_os.Vga.{
  Screen, get_cursor, set_cursor, place_cursor, next_line, cleark, kputc, kputchar, write,
}
use weird_os.Vga.Scroll.{scroll_lines_one}

-- The cursor is on the screen, at most just behind the end of a line; `vbuf` and the hardware
-- cursor point to it.
pub record IsScreen (s : Screen) : Type 0 where
  pub line : s.line_number < 24
  pub column : s.column_number ≤ 80
  pub pointer : s.vbuf ≡ s.line_number * 160 + s.column_number * 2
  pub cursor : get_cursor s ≡ 80 * s.line_number + s.column_number

-- get_cursor reads back what set_cursor wrote.
pub get_cursor-set_cursor :
    (offset : ℕ) (s : Screen) → offset < 2 ^ 16 → get_cursor (set_cursor offset s) ≡ offset
unfolding get_cursor set_cursor
get_cursor-set_cursor offset s h = omega arith

place_cursor-IsScreen :
    (s : Screen) → s.line_number < 24 → s.column_number ≤ 80 → IsScreen (place_cursor s)
unfolding place_cursor get_cursor set_cursor
place_cursor-IsScreen s h k = omega arith

place_cursor-video : (s : Screen) (a : ℕ) → (place_cursor s).video a ≡ s.video a
unfolding place_cursor set_cursor
place_cursor-video s a = refl

next_line-IsScreen : (s : Screen) → IsScreen s → IsScreen (next_line s)
unfolding next_line
next_line-IsScreen s h = elim (Bool-cases (leb 24 (s.line_number + 1))) [
  | inl over ↦ rw over (place_cursor-IsScreen _ (omega arith) (omega arith))
  | inr under ↦ rw under (place_cursor-IsScreen _ (ground arith) (omega arith))
]

next_line-column : (s : Screen) → (next_line s).column_number ≡ 0
unfolding next_line place_cursor set_cursor
next_line-column s = ground arith

kputc-IsScreen : (c : ℕ) (s : Screen) → IsScreen s → s.column_number < 80 → IsScreen (kputc c s)
unfolding kputc
kputc-IsScreen c s h room = place_cursor-IsScreen _ h.line (omega arith)

-- cleark puts the cursor in the first place of an empty screen.
pub cleark-IsScreen :
    (s : Screen)
    → IsScreen (cleark s)
      × ((cleark s).vbuf ≡ 0)
      × ((a : ℕ) → a < 3840 → (cleark s).video a ≡ 0)
      × ((a : ℕ) → 3840 ≤ a → (cleark s).video a ≡ s.video a)
unfolding cleark place_cursor get_cursor set_cursor
cleark-IsScreen s = (omega arith, refl, ground arith, ground arith)

next_line-outside : (s : Screen) (a : ℕ) → 3840 ≤ a → (next_line s).video a ≡ s.video a
unfolding next_line place_cursor set_cursor
next_line-outside s a h = ground (arith, scroll_lines_one s.video a)

kputc-outside :
    (c : ℕ) (s : Screen) (a : ℕ)
    → IsScreen s
    → s.column_number < 80
    → 3840 ≤ a
    → (kputc c s).video a ≡ s.video a
unfolding kputc place_cursor set_cursor
kputc-outside c s a h room far = ground arith

-- Printing any byte keeps the cursor on the screen and writes no byte outside video memory.
pub kputchar-IsScreen :
    (c : ℕ) (s : Screen)
    → IsScreen s
    → IsScreen (kputchar c s) × ((a : ℕ) → 3840 ≤ a → (kputchar c s).video a ≡ s.video a)
unfolding kputchar
kputchar-IsScreen c s h = elim (Bool-cases (c == b'\n')) [
  | inl nl ↦ rw nl (next_line-IsScreen s h, next_line-outside s)
  | inr no_nl ↦ elim (Bool-cases (c == b'\r')) [
    | inl cr ↦
        rw (no_nl, cr) (place_cursor-IsScreen _ h.line (omega arith), λ a k. place_cursor-video _ a)
    | inr no_cr ↦ elim (Bool-cases (leb 80 s.column_number)) [
      | inl full ↦
          let next = next_line-IsScreen s h in
          let room = next_line-column s in
          rw (no_nl, no_cr, full)
            (
              kputc-IsScreen c (next_line s) next (omega arith),
              λ a k. kputc-outside c (next_line s) a next (omega arith) k ∙ next_line-outside s a k,
            )
      | inr space ↦
          rw (no_nl, no_cr, space)
            (kputc-IsScreen c s h (ground arith), λ a k. kputc-outside c s a h (ground arith) k)
    ]
  ]
]

-- With the cursor on the screen, vga_dev::write handles every byte, keeps the cursor on the screen
-- and writes no byte outside video memory.
pub write-IsScreen :
    (cs : List ℕ) (s : Screen)
    → IsScreen s
    → ((write cs s).0 ≡ length cs)
      × IsScreen (write cs s).1
      × ((a : ℕ) → 3840 ≤ a → (write cs s).1.video a ≡ s.video a)
unfolding write
write-IsScreen [] s h = (refl, h, λ a k. refl)
write-IsScreen (c ∷ cs) s h =
    let (h', same) = kputchar-IsScreen c s h in
    let (n, h'', same') = write-IsScreen cs (kputchar c s) h' in
    (omega arith, h'', λ a k. same' a k ∙ same a k)

-- With the cursor on the screen, a byte other than a line feed and a return is shown in the cell at the cursor, at the start of the next
-- line if the line is full; the cursor moves on by one.
pub kputchar_shows :
    (c : ℕ) (s : Screen)
    → IsScreen s
    → c ≢ b'\n'
    → c ≢ b'\r'
    → (t : Screen) × (t ≡ (if leb 80 s.column_number then next_line s else s))
      × ((kputchar c s).video t.vbuf ≡ c % 256)
      × ((kputchar c s).video (t.vbuf + 1) ≡ 0x0f)
      × ((a : ℕ) → a ≢ t.vbuf → a ≢ t.vbuf + 1 → (kputchar c s).video a ≡ t.video a)
      × ((kputchar c s).line_number ≡ t.line_number)
      × ((kputchar c s).column_number ≡ t.column_number + 1)
unfolding kputchar kputc place_cursor set_cursor
kputchar_shows c s h nl cr =
    let no_nl : (c == b'\n') ≡ false = ground arith in
    let no_cr : (c == b'\r') ≡ false = ground arith in
    rw (no_nl, no_cr) (_, refl, ground arith, ground arith, λ a p q. ground arith, refl, refl)
