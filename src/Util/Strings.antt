-- ===== src/Util/Strings.antt =====
-- The class string of includes/util/string.h on the kernel heap, which kmalloc uses once it exists.
-- `data` is the address of the characters.
pub mod Apart
pub mod Joined
pub mod Concat
pub mod Tests
use weird_os.Base.{
  ℕ, ◌+◌, Bool, true, false, ◌==◌, not, if◌then◌else◌, Option, none, some, add32, sub32,
}
use weird_os.Clib.Memory.{strlen, equal_bytes}
use weird_os.Kmalloc.Alloc.{alloc_internal, free, krealloc}
use weird_os.Kmalloc.Blocks.{Heap}
use weird_os.Kmalloc.Memory.{Memory, Run, ok, out_of_fuel, Cmd, pure, ◌>>=◌, ◌>>◌, copy_bytes}

pub record Str : Type 0 where
  pub chars : ℕ
  pub length : ℕ

-- `*address = v`
unfoldable pub put : (address v : ℕ) → Cmd (Unit {0})
put address v m = ok tt (record m { bytes = λ a. if a == address then v else m.bytes a })

-- `(char *)kmalloc(sz)`
unfoldable pub kmalloc : (fuel : ℕ) → Heap → (sz : ℕ) → Cmd ℕ
unfolding alloc_internal
kmalloc fuel heap sz = alloc_internal fuel sz false heap

-- string(size_t)
unfoldable pub with_length : (fuel : ℕ) → Heap → (len : ℕ) → Cmd Str
unfolding kmalloc put
with_length fuel heap len = do
  p ← kmalloc fuel heap (add32 len 1)
  put p 0
  put (p + len) 0
  pure (record { chars = p; length = len })

-- string(const char *); the first call of strlen gives the allocation's size.
unfoldable pub from_chars : (fuel : ℕ) → Heap → (cstr : ℕ) → Cmd Str
unfolding kmalloc put
from_chars fuel heap cstr m = elim (strlen fuel m.bytes cstr) [
  | none ↦ out_of_fuel
  | some len ↦
      (do
        p ← kmalloc fuel heap (add32 len 1)
        copy_bytes p cstr len
        put (p + len) 0
        pure (record { chars = p; length = len }))
        m
]

-- operator= allocates anew, and does not free the old characters.
unfoldable pub assign : (fuel : ℕ) → Heap → (other : Str) → Cmd Str
unfolding kmalloc put
assign fuel heap other = do
  p ← kmalloc fuel heap (add32 other.length 1)
  copy_bytes p other.chars other.length
  put (p + other.length) 0
  pure (record { chars = p; length = other.length })

-- The copy constructor shares the characters.
unfoldable pub copy : Str → Str
copy other = other

unfoldable pub destroy : (fuel : ℕ) → Str → Cmd (Unit {0})
unfolding free
destroy fuel s = free fuel s.chars

-- operator+
unfoldable pub concat : (fuel : ℕ) → Heap → (s other : Str) → Cmd Str
unfolding with_length put
concat fuel heap s other = do
  out ← with_length fuel heap (add32 s.length other.length)
  copy_bytes out.chars s.chars s.length
  copy_bytes (out.chars + s.length) other.chars other.length
  put (out.chars + out.length) 0
  pure out

-- operator+=
unfoldable pub append : (fuel : ℕ) → Heap → (s other : Str) → Cmd Str
unfolding krealloc put
append fuel heap s other = do
  p ← krealloc fuel heap s.chars (add32 (add32 s.length other.length) 1)
  copy_bytes (p + s.length) other.chars other.length
  put (p + add32 s.length other.length) 0
  pure (record { chars = p; length = add32 s.length other.length })

unfoldable pub substr : (fuel : ℕ) → Heap → Str → (start len : ℕ) → Cmd Str
unfolding with_length put
substr fuel heap s start len = do
  out ← with_length fuel heap len
  copy_bytes out.chars (s.chars + start) len
  put (out.chars + len) 0
  pure out

unfoldable pub slice : (fuel : ℕ) → Heap → Str → (start end : ℕ) → Cmd Str
unfolding with_length put
slice fuel heap s start end = do
  out ← with_length fuel heap (sub32 end start)
  copy_bytes out.chars (s.chars + start) (sub32 end start)
  put (out.chars + sub32 end start) 0
  pure out

unfoldable pub equal : Memory → (s other : Str) → Bool
unfolding equal_bytes
equal m s other =
    if s.chars == other.chars
    then true
    else if not (s.length == other.length)
    then false
    else equal_bytes s.length 0 s.chars other.chars m.bytes
