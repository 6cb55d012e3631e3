-- ===== src/Vga/Tests.antt =====
-- The theorems on kernel/drivers/vga/vga.cpp on a screen whose cursor stands at the end of the
-- last line.
use weird_os.Base.{ℕ, ◌%◌, ◌≤◌, ◌≡◌, refl, [], ◌∷◌, arith}
use weird_os.Vga.{Screen, get_cursor, write}
use weird_os.Vga.Laws.{IsScreen, write-IsScreen}

abbrev full_screen : Screen
full_screen = record {
  line_number = 23;
  column_number = 80;
  vbuf = 3840;
  video = λ a. a % 256;
  cursor_high = 7;
  cursor_low = 128;
}

full_screen-IsScreen : IsScreen full_screen
unfolding get_cursor
full_screen-IsScreen = record {
  line = omega arith;
  column = omega arith;
  pointer = refl;
  cursor = refl;
}

write-IsScreen_example :
    ((write (b'h' ∷ b'\n' ∷ b'i' ∷ []) full_screen).0 ≡ 3)
    × IsScreen (write (b'h' ∷ b'\n' ∷ b'i' ∷ []) full_screen).1
    × ((a : ℕ)
        → 3840 ≤ a
        → (write (b'h' ∷ b'\n' ∷ b'i' ∷ []) full_screen).1.video a ≡ full_screen.video a)
write-IsScreen_example = write-IsScreen (b'h' ∷ b'\n' ∷ b'i' ∷ []) full_screen full_screen-IsScreen
