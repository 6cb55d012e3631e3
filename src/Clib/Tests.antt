-- ===== src/Clib/Tests.antt =====
-- The theorems on kernel/clib at concrete bytes and numbers.
use weird_os.Base.{ℕ, ◌-◌, ◌^◌, ◌≤◌, ◌≡◌, some, List, [], ◌∷◌, arith, length, get_or, if◌then◌else◌}
use weird_os.Clib.Memory.{Bytes}
use weird_os.Base.{codes, ◌+◌, ◌<◌, ◌%◌, ◌⊎◌}
use weird_os.Clib.Printf.{int, vfprintf, prints, convert, hexadecimal, convert-hex}
use weird_os.Clib.Streams.{Stream, vsprintf}
use weird_os.Clib.Streams.Laws.{chars, outcome, vsprintf-stores}
use weird_os.Clib.Itoa.{itoa, is_negative, decimal, itoa-decimal}

-- "ab" at 0 and "abc" at 3.
abbrev two_strings : Bytes
two_strings a = get_or (97 ∷ 98 ∷ 0 ∷ 97 ∷ 98 ∷ 99 ∷ 0 ∷ []) a 0

itoa-decimal_example :
    (digits : List ℕ) × (itoa 11 4294967295 10
      ≡ some (if is_negative 4294967295 10 then b'-' ∷ digits else digits))
    × (decimal digits 0 ≡ (if is_negative 4294967295 10 then 2 ^ 32 - 4294967295 else 4294967295))
    × (length digits ≤ 10)
itoa-decimal_example = itoa-decimal 11 4294967295 (omega arith) (omega arith)

-- "%d%" with one number, printed to memory.
abbrev format : List ℕ
format = codes "%d%"

abbrev memory_stream : Stream (Unit {0})
memory_stream = record { memory = two_strings; write_ptr = 100; device = tt }

vsprintf-stores_example :
    (m' : Bytes) × (vsprintf 100 format (int 7 ∷ []) two_strings
      ≡ outcome (vfprintf format (int 7 ∷ [])) (record {
        memory = m';
        write_ptr = 100 + length (chars (vfprintf format (int 7 ∷ [])));
        device = tt;
      }))
    × ((i : ℕ)
        → i < length (chars (vfprintf format (int 7 ∷ [])))
        → m' (100 + i) ≡ get_or (chars (vfprintf format (int 7 ∷ []))) i 0 % 256)
    × ((a : ℕ)
        → (a < 100) ⊎ (100 + length (chars (vfprintf format (int 7 ∷ []))) ≤ a)
        → m' a ≡ two_strings a)
vsprintf-stores_example = vsprintf-stores 100 format (int 7 ∷ []) two_strings

convert-hex_example :
    (digits : List ℕ) × (convert b'x' (int 0xbeef ∷ []) ≡ prints digits [])
    × (hexadecimal digits 0 ≡ 0xbeef)
    × (length digits ≡ 8)
convert-hex_example = convert-hex 0xbeef [] (omega arith)
