-- ===== src/X86/Keyboard.antt =====
-- The keyboard driver, kernel/drivers/ps2/ps2.cpp, and getc of kernel/clib/stdio.cpp, which reads
-- what it stores. The scancode read from port 0x60 is an argument. `read_ptr` is the offset of
-- _IO_read_ptr from key_buffer, and `bytes` holds the buffer.
use weird_os.Base.{
  ℕ, ◌+◌, ◌-◌, ◌<◌, ◌≤◌, ◌≡◌, ◌≢◌, refl, arith, ◌==◌, if◌then◌else◌, Bool, true, false, List, [],
  ◌∷◌, leb, ltb, Option, none, some, ==_iff,
}
use weird_os.X86.Keymap.{kbdus}

pub record Keyboard : Type 0 where
  pub shift_down : Bool
  pub read_ptr : ℕ
  pub bytes : ℕ → ℕ

abbrev pub key_buffer_size : ℕ
key_buffer_size = 100

-- The routine itself is installed by install_irq_routine.
unfoldable pub install_keyboard : Keyboard → Keyboard
install_keyboard k = record k {
  read_ptr = 0;
  bytes = λ a. if ltb a key_buffer_size then 0 else k.bytes a;
}

abbrev pub put : (ℕ → ℕ) → ℕ → ℕ → ℕ → ℕ
put bytes p c a = if a == p then c else bytes a

-- `scancode & 0x80` and `scancode & 0x7f`, for a byte. `none` is a store behind key_buffer.
unfoldable pub keyboard_handler : (scancode : ℕ) → Keyboard → Option Keyboard
keyboard_handler scancode k =
    if leb 0x80 scancode
    then (if scancode - 0x80 == 42 then some (record k { shift_down = false }) else some k)
    else (if scancode == 42
        then some (record k { shift_down = true })
        else if leb key_buffer_size (k.read_ptr + 1)
        then none
        else some (record k {
          read_ptr = k.read_ptr + 1;
          bytes = put k.bytes (k.read_ptr + 1) (kbdus k.shift_down scancode);
        }))

-- `none` is the loop that waits for the byte at the read pointer to be set.
unfoldable pub getc : Keyboard → Option (ℕ × Keyboard)
getc k =
    if k.bytes k.read_ptr == 0
    then none
    else some (
      k.bytes k.read_ptr,
      record k { read_ptr = k.read_ptr - 1; bytes = put k.bytes k.read_ptr 0 },
    )

-- A key that has a character, pressed and then read with room in the buffer, gives the character of the
-- current shift state, and the read pointer is where it was. So the buffer is a stack: the last key
-- comes first.
pub getc-press :
    (scancode : ℕ) (k : Keyboard)
    → scancode < 0x80
    → scancode ≢ 42
    → kbdus k.shift_down scancode ≢ 0
    → k.read_ptr + 1 < key_buffer_size
    → (pressed k' : Keyboard) × (keyboard_handler scancode k ≡ some pressed)
      × (getc pressed ≡ some (kbdus k.shift_down scancode, k'))
      × (k'.read_ptr ≡ k.read_ptr)
      × (k'.shift_down ≡ k.shift_down)
      × ((a : ℕ) → a ≢ k.read_ptr + 1 → k'.bytes a ≡ k.bytes a)
unfolding getc keyboard_handler
getc-press scancode k low key char room =
    let pressed : leb 0x80 scancode ≡ false = ground arith in
    let no_shift : (scancode == 42) ≡ false = ground arith in
    let inside : leb key_buffer_size (k.read_ptr + 1) ≡ false = ground arith in
    let here : (k.read_ptr + 1 == k.read_ptr + 1) ≡ true = (==_iff (k.read_ptr + 1) _).1 refl in
    let set : (kbdus k.shift_down scancode == 0) ≡ false = ground arith in
    (
      record k {
        read_ptr = k.read_ptr + 1;
        bytes = put k.bytes (k.read_ptr + 1) (kbdus k.shift_down scancode);
      },
      record k {
        read_ptr = k.read_ptr + 1 - 1;
        bytes = put (put k.bytes (k.read_ptr + 1) (kbdus k.shift_down scancode)) (k.read_ptr + 1) 0;
      },
      rw (keyboard_handler, pressed, no_shift, inside) refl,
      rw (here, set) refl,
      omega arith,
      refl,
      λ a h. ground arith,
    )

-- A press of any key but shift with the read pointer at the last byte stores behind the buffer.
pub keyboard_handler-overflow :
    (c : ℕ) (k : Keyboard)
    → c < 0x80
    → c ≢ 42
    → key_buffer_size ≤ k.read_ptr + 1
    → keyboard_handler c k ≡ none
unfolding keyboard_handler
keyboard_handler-overflow c k low key full =
    let pressed : leb 0x80 c ≡ false = ground arith in
    let no_shift : (c == 42) ≡ false = ground arith in
    let over : leb key_buffer_size (k.read_ptr + 1) ≡ true = ground arith in
    rw (keyboard_handler, pressed, no_shift, over) refl

-- getc with the scancodes of the interrupts that come in turn while it halts: it returns, it still waits
-- behind the last, or an interrupt stored behind key_buffer.
pub data Waited : Type 0 where
  returned : ℕ → Keyboard → Waited
  waiting : Keyboard → Waited
  overflow : Waited

unfoldable pub getc_wait : List ℕ → Keyboard → Waited
unfolding getc keyboard_handler
getc_wait [] k = elim (getc k) [ some (c, k') ↦ returned c k' | none ↦ waiting k ]
getc_wait (c ∷ cs) k = elim (getc k) [
  | some (read, k') ↦ returned read k'
  | none ↦ elim (keyboard_handler c k) [ some k' ↦ getc_wait cs k' | none ↦ overflow ]
]
