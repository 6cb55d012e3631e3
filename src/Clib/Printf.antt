-- ===== src/Clib/Printf.antt =====
-- vfprintf of kernel/clib/stdio.cpp. The format and the strings are lists of characters, the
-- variable arguments a list of values; the characters given to fputc are the result.
use weird_os.Base.{
  ℕ, zero, suc, ◌+◌, ◌-◌, ◌*◌, ◌/◌, ◌%◌, ◌^◌, ◌<◌, ◌≡◌, ◌≢◌, refl, ap, ◌∙◌, arith, ◌==◌, ltb,
  if◌then◌else◌, List, [], ◌∷◌, ◌++◌, length, false, Option, none, some, All,
}
use native.Mathlib.Nat.{pow-suc}
use weird_os.Clib.Itoa.{itoa}

pub data Arg : Type 0 where
  int : ℕ → Arg
  string : List ℕ → Arg

-- The characters printed, to the end of the format or up to the assertion that fails or the read of
-- an argument that was not passed, or was passed at another type.
pub data Printed : Type 0 where
  ok : List ℕ → Printed
  invalid_format : List ℕ → Printed
  bad_arg : List ℕ → Printed

abbrev pub prepend : List ℕ → Printed → Printed
prepend cs (ok out) = ok (cs ++ out)
prepend cs (invalid_format out) = invalid_format (cs ++ out)
prepend cs (bad_arg out) = bad_arg (cs ++ out)

-- `v + (v < 10 ? '0' : ('a' - 10))`
unfoldable pub hex_char : ℕ → ℕ
hex_char v = v + (if ltb v 10 then b'0' else b'a' - 10)

-- `for (i = 7; i >= 0; --i)`: the low digit is stored last.
unfoldable pub hex_loop : (rounds tmp_value : ℕ) → List ℕ → List ℕ
hex_loop zero v buf = buf
hex_loop (suc n) v buf = hex_loop n (v / 16) (hex_char (v % 16) ∷ buf)

unfoldable pub hex : ℕ → List ℕ
hex value = hex_loop 8 value []

-- The characters that one conversion prints, and the arguments that are left.
pub data Conversion : Type 0 where
  prints : List ℕ → List Arg → Conversion
  missing : Conversion

abbrev pub itoa_or : Option (List ℕ) → List ℕ
itoa_or none = []
itoa_or (some cs) = cs

-- itoa with base 10 needs no more than 11 rounds.
unfoldable pub convert : (next : ℕ) → List Arg → Conversion
convert next args =
    if next == b'%'
    then prints (b'%' ∷ []) args
    else if next == b'd'
    then elim args [ int v ∷ rest ↦ prints (itoa_or (itoa 11 v 10)) rest | _ ↦ missing ]
    else if next == b'x'
    then elim args [ int v ∷ rest ↦ prints (hex v) rest | _ ↦ missing ]
    else if next == b's'
    then elim args [ string s ∷ rest ↦ prints s rest | _ ↦ missing ]
    else prints [] args

unfoldable pub vfprintf : (format : List ℕ) → List Arg → Printed
vfprintf [] args = ok []
vfprintf (c ∷ []) args = if c == b'%' then invalid_format [] else ok (c ∷ [])
vfprintf (c ∷ next ∷ format) args =
    let converted : Printed = elim (convert next args) [
      | prints cs rest ↦ prepend cs (vfprintf format rest)
      | missing ↦ bad_arg []
    ] in
    let plain = prepend (c ∷ []) (vfprintf (next ∷ format) args) in
    if c == b'%' then converted else plain

-- The number that hexadecimal digits stand for, after the digits of `acc`.
unfoldable pub hexadecimal : List ℕ → (acc : ℕ) → ℕ
hexadecimal [] acc = acc
hexadecimal (c ∷ cs) acc =
    hexadecimal cs (acc * 16 + (if ltb c b'a' then c - b'0' else c - (b'a' - 10)))

hex_char-value :
    (v : ℕ) → v < 16 → (if ltb (hex_char v) b'a' then hex_char v - b'0' else hex_char v - 87) ≡ v
unfolding hex_char
hex_char-value v h = ground arith

hex_loop-hexadecimal :
    (n v : ℕ) (buf : List ℕ)
    → v < 16 ^ n
    → (hexadecimal (hex_loop n v buf) 0 ≡ hexadecimal buf v)
      × (length (hex_loop n v buf) ≡ n + length buf)
unfolding hex_loop hexadecimal
hex_loop-hexadecimal zero v buf small = (ap (hexadecimal buf) (omega arith), omega arith)
hex_loop-hexadecimal (suc n) v buf small =
    let (value, size) =
      hex_loop-hexadecimal n (v / 16) (hex_char (v % 16) ∷ buf) (omega (arith, pow-suc 16 n)) in
    let low = hex_char-value (v % 16) (omega arith) in
    (value ∙ ap (hexadecimal buf) (omega arith), omega arith)

hexadecimal-nil : (v : ℕ) → hexadecimal [] v ≡ v
unfolding hexadecimal
hexadecimal-nil v = refl

-- `%x` prints every 32-bit value as exactly 8 digits, and they stand for the value.
pub convert-hex :
    (value : ℕ) (args : List Arg)
    → value < 2 ^ 32
    → (digits : List ℕ) × (convert b'x' (int value ∷ args) ≡ prints digits args)
      × (hexadecimal digits 0 ≡ value)
      × (length digits ≡ 8)
unfolding convert hex
convert-hex value args word =
    let (same, size) = hex_loop-hexadecimal 8 value [] word in
    (hex_loop 8 value [], refl, same ∙ hexadecimal-nil value, size ∙ omega arith)

prepend-cons :
    (c : ℕ) (cs : List ℕ) (r : Printed) → prepend (c ∷ []) (prepend cs r) ≡ prepend (c ∷ cs) r
prepend-cons c cs (ok out) = refl
prepend-cons c cs (invalid_format out) = refl
prepend-cons c cs (bad_arg out) = refl

-- Characters up to a percent sign are printed as they are, and the rest of the format follows.
pub vfprintf-plain :
    (plain format : List ℕ) (args : List Arg)
    → All (λ c. c ≢ b'%') plain
    → vfprintf (plain ++ format) args ≡ prepend plain (vfprintf format args)
unfolding vfprintf
vfprintf-plain [] format args h = ground arith
vfprintf-plain (c ∷ []) [] args (ne, h) = ground arith
vfprintf-plain (c ∷ []) (d ∷ format) args (ne, h) = ground arith
vfprintf-plain (c ∷ d ∷ plain) format args (ne, h) =
    let no : (c == b'%') ≡ false = ground arith in
    rw no (
      ap (prepend (c ∷ [])) (vfprintf-plain (d ∷ plain) format args h)
      ∙ prepend-cons c (d ∷ plain) (vfprintf format args))
