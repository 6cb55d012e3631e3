-- ===== src/Vga.antt =====
-- The text screen: kernel/drivers/vga/vga.cpp. Video memory is a function from byte offsets behind
-- VIDEO_BUFFER; the CRT controller's two cursor registers are the fields `cursor_high` and
-- `cursor_low`.
pub mod Scroll
pub mod Laws
pub mod Console
pub mod Tests
use weird_os.Base.{
  ℕ, zero, suc, ◌+◌, ◌-◌, ◌*◌, ◌/◌, ◌%◌, Bool, ◌&&◌, List, [], ◌∷◌, ◌==◌, leb, ltb, if◌then◌else◌,
}

abbrev pub screen_width : ℕ
screen_width = 80

abbrev pub screen_height : ℕ
screen_height = 24

abbrev pub Video : Type 0
Video = ℕ → ℕ

pub record Screen : Type 0 where
  pub line_number : ℕ
  pub column_number : ℕ
  pub vbuf : ℕ
  pub video : Video
  pub cursor_high : ℕ
  pub cursor_low : ℕ

unfoldable pub get_cursor : Screen → ℕ
get_cursor s = s.cursor_high * 256 + s.cursor_low

-- The argument is a uint16_t.
unfoldable pub set_cursor : ℕ → Screen → Screen
set_cursor offset s = record s { cursor_high = offset / 256 % 256; cursor_low = offset % 256 }

unfoldable pub place_cursor : Screen → Screen
place_cursor s =
    let s' = set_cursor ((screen_width * s.line_number + s.column_number) % 0x1_0000) s in
    record s' { vbuf = s.line_number * screen_width * 2 + s.column_number * 2 }

-- memcpy of one line of cells, and memset of one line to 0.
unfoldable pub copy_line : (dest src : ℕ) → Video → Video
copy_line dest src v a =
    if leb dest a && ltb a (dest + screen_width * 2) then v (a - dest + src) else v a

unfoldable pub clear_line : ℕ → Video → Video
clear_line dest v a = if leb dest a && ltb a (dest + screen_width * 2) then 0 else v a

-- `for (i = l; i < SCREEN_HEIGHT; ++i)`, by the rounds left.
unfoldable pub copy_lines : (rounds i : ℕ) → Video → Video
copy_lines zero i v = v
copy_lines (suc n) i v =
    copy_lines n (i + 1) (copy_line ((i - 1) * screen_width * 2) (i * screen_width * 2) v)

unfoldable pub clear_lines : (rounds i : ℕ) → Video → Video
clear_lines zero i v = v
clear_lines (suc n) i v = clear_lines n (i + 1) (clear_line (i * screen_width * 2) v)

unfoldable pub scroll_lines : ℕ → Video → Video
scroll_lines l v = clear_lines l (screen_height - l) (copy_lines (screen_height - l) l v)

unfoldable pub next_line : Screen → Screen
next_line s =
    let line = s.line_number + 1 in
    place_cursor (
      if leb screen_height line
      then record s {
        line_number = screen_height - 1;
        column_number = 0;
        video = scroll_lines 1 s.video;
      }
      else record s { line_number = line; column_number = 0 })

unfoldable pub cleark : Screen → Screen
cleark s = place_cursor (record s {
  line_number = 0;
  column_number = 0;
  vbuf = 0;
  video = λ a. if ltb a (screen_width * screen_height * 2) then 0 else s.video a;
})

-- vbuf[0] = c; vbuf[1] = 0x0f
unfoldable pub kputc : (c : ℕ) → Screen → Screen
kputc c s = place_cursor (record s {
  column_number = s.column_number + 1;
  vbuf = s.vbuf + 2;
  video = λ a. if a == s.vbuf then c % 256 else (if a == s.vbuf + 1 then 0x0f else s.video a);
})

unfoldable pub kputchar : (c : ℕ) → Screen → Screen
kputchar c s =
    if c == b'\n'
    then next_line s
    else if c == b'\r'
    then place_cursor (record s { column_number = 0 })
    else (let s' = if leb screen_width s.column_number then next_line s else s in kputc c s')

-- vga_dev::write: every byte in turn, and their number.
unfoldable pub write : List ℕ → Screen → ℕ × Screen
write [] s = (0, s)
write (c ∷ cs) s = let (n, s') = write cs (kputchar c s) in (n + 1, s')
