-- ===== src/Kmalloc/Memory.antt =====
-- The memory that kernel/kmalloc.cpp works on: the block headers (includes/kernel/kmalloc.h) at
-- their addresses, the bytes between them, and runs that may stop at an assertion.
use weird_os.Base.{
  ℕ, ◌+◌, ◌-◌, ◌%◌, Bool, true, false, ◌&&◌, Option, none, some, ◌==◌, leb, ltb, if◌then◌else◌,
}

pub record BlockHeader : Type 0 where
  pub magic : ℕ
  pub size : ℕ
  pub next : ℕ
  pub previous : ℕ

abbrev pub magic_number : ℕ
magic_number = 0x5d6d9cd6

abbrev pub min_block_size : ℕ
min_block_size = 4

-- sizeof(struct block_header)
abbrev pub header_size : ℕ
header_size = 16

pub record Memory : Type 0 where
  pub headers : ℕ → Option BlockHeader
  pub bytes : ℕ → ℕ

-- The assertions of the file, by their messages.
pub data Assertion : Type 0 where
  headers_adjacent : Assertion
  no_unused_blocks : Assertion
  out_of_heap_space_aligned : Assertion
  out_of_heap_space : Assertion
  heap_block_invalid : Assertion
  realloc_error : Assertion
  heap_not_initialized : Assertion
  new_error : Assertion
  page_of_4kb : Assertion

-- `wild` is an access through a pointer to no header, `overlap` a copy of a header onto itself.
pub data Run (A : Type 0) : Type 0 where
  ok : A → Memory → Run A
  assert_failed : Assertion → Run A
  wild : Run A
  overlap : Run A
  out_of_fuel : Run A

abbrev pub Cmd : Type 0 → Type 0
Cmd A = Memory → Run A

abbrev pub pure : {A : Type 0} → A → Cmd A
pure = ok

module _ {A B : Type 0} where
  abbrev pub and_then : Run A → (A → Cmd B) → Run B
  and_then (ok a m) k = k a m
  and_then (assert_failed e) k = assert_failed e
  and_then wild k = wild
  and_then overlap k = overlap
  and_then out_of_fuel k = out_of_fuel

  infixl 5 ◌>>=◌ ◌>>◌
  abbrev pub ◌>>=◌ : Cmd A → (A → Cmd B) → Cmd B
  c >>= k = λ m. and_then (c m) k

  abbrev pub ◌>>◌ : Cmd A → Cmd B → Cmd B
  c >> d = c >>= λ _. d

abbrev pub assert : Bool → Assertion → Cmd (Unit {0})
assert true e = pure tt
assert false e = λ _. assert_failed e

unfoldable pub write : (ℕ → Option BlockHeader) → ℕ → BlockHeader → ℕ → Option BlockHeader
write f p h a = if a == p then some h else f a

-- `*p`; a null pointer and an address with no header are faults.
unfoldable pub load : ℕ → Cmd BlockHeader
load p m = if p == 0 then wild else elim (m.headers p) [ none ↦ wild | some h ↦ ok h m ]

abbrev pub store : ℕ → BlockHeader → Cmd (Unit {0})
store p h m = ok tt (record m { headers = write m.headers p h })

unfoldable pub set_magic : ℕ → ℕ → Cmd (Unit {0})
set_magic p v = do h ← load p; store p (record h { magic = v })

unfoldable pub set_size : ℕ → ℕ → Cmd (Unit {0})
set_size p v = do h ← load p; store p (record h { size = v })

unfoldable pub set_next : ℕ → ℕ → Cmd (Unit {0})
set_next p v = do h ← load p; store p (record h { next = v })

unfoldable pub set_previous : ℕ → ℕ → Cmd (Unit {0})
set_previous p v = do h ← load p; store p (record h { previous = v })

-- memcpy of `n` bytes between two areas that do not overlap.
unfoldable pub copy_bytes : (dest src n : ℕ) → Cmd (Unit {0})
copy_bytes dest src n m = ok tt (record m {
  bytes = λ a. if leb dest a && ltb a (dest + n) then m.bytes (a - dest + src) else m.bytes a;
})

-- `magic & 0x1` and `(magic & 0xfffffffe) == MAGIC`, for words.
unfoldable pub is_used : ℕ → Bool
is_used magic = magic % 2 == 1

unfoldable pub is_valid : ℕ → Bool
is_valid magic = magic - magic % 2 == magic_number

-- `magic & 0xfffffffe` and `magic | 0x1`.
abbrev pub clear_used : ℕ → ℕ
clear_used magic = magic - magic % 2

abbrev pub set_used : ℕ → ℕ
set_used magic = magic + (1 - magic % 2)
