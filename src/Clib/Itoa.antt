-- ===== src/Clib/Itoa.antt =====
-- itoa of kernel/clib/string.cpp. An int is its 32-bit pattern. The temporary buffer is a list,
-- the character stored last in front, so the loop that copies it backwards is the identity.
use weird_os.Base.{
  ℕ, zero, suc, ◌+◌, ◌-◌, ◌*◌, ◌/◌, ◌%◌, ◌^◌, ◌≤◌, ◌<◌, ◌≡◌, ◌≢◌, refl, ap, ◌∙◌, arith, ◌==◌, leb,
  ltb, ◌&&◌, if◌then◌else◌, inl, inr, Bool-cases, ==_iff, List, [], ◌∷◌, length, Bool, false,
  Option, none, some,
}
use native.Mathlib.Nat.{pow-suc}

-- `i + (i < 10 ? '0' : 'a')`, as a char.
unfoldable pub digit_char : ℕ → ℕ
digit_char i = (i + (if ltb i 10 then b'0' else b'a')) % 256

-- `while (v)`
unfoldable pub itoa_loop : ℕ → (v base : ℕ) (buffer : List ℕ) → Option (List ℕ)
itoa_loop zero v base buffer = none
itoa_loop (suc fuel) v base buffer =
    let rest = itoa_loop fuel (v / base) base (digit_char (v % base) ∷ buffer) in
    if v == 0 then some buffer else rest

abbrev pub is_negative : (value base : ℕ) → Bool
is_negative value base = base == 10 && leb (2 ^ 31) value

-- The characters before the final 0; the result of the function is their number.
unfoldable pub itoa : ℕ → (value base : ℕ) → Option (List ℕ)
itoa fuel value base =
    if value == 0
    then some (b'0' ∷ [])
    else (let sign = is_negative value base in
        let v = if sign then 2 ^ 32 - value else value in
        elim (itoa_loop fuel v base []) [
          | none ↦ none
          | some digits ↦ some (if sign then b'-' ∷ digits else digits)
        ])

-- The number that decimal digits stand for, after the digits of `acc`.
unfoldable pub decimal : List ℕ → (acc : ℕ) → ℕ
decimal [] acc = acc
decimal (c ∷ cs) acc = decimal cs (acc * 10 + (c - b'0'))

digit_char-decimal : (i : ℕ) → i < 10 → digit_char i ≡ i + b'0'
unfolding digit_char
digit_char-decimal i h = ground arith

div-lt-pow : (v k : ℕ) → v ≢ 0 → v < 10 ^ k → (j : ℕ) × (k ≡ suc j) × (v / 10 < 10 ^ j)
div-lt-pow v zero some_digit small = absurd (omega arith)
div-lt-pow v (suc k) some_digit small = (k, refl, omega (arith, pow-suc 10 k))

itoa_loop-decimal :
    (fuel v k : ℕ) (buffer : List ℕ)
    → k < fuel
    → v < 10 ^ k
    → (digits : List ℕ) × (itoa_loop fuel v 10 buffer ≡ some digits)
      × (decimal digits 0 ≡ decimal buffer v)
      × (length digits ≤ length buffer + k)
unfolding itoa_loop decimal
itoa_loop-decimal zero v k buffer enough small = absurd (omega arith)
itoa_loop-decimal (suc fuel) v k buffer enough small = elim (Bool-cases (v == 0)) [
  | inl stop ↦ let z : v ≡ 0 = (==_iff v 0).0 stop in (buffer, rw stop, rw z, omega arith)
  | inr go ↦
      let (j, e, small') = div-lt-pow v k (ground arith) small in
      let buffer' = digit_char (v % 10) ∷ buffer in
      let (digits, run, value, short) =
        itoa_loop-decimal fuel (v / 10) j buffer' (omega arith) small' in
      let last = digit_char-decimal (v % 10) (omega arith) in
      (digits, rw go run, value ∙ ap (decimal buffer) (omega arith), omega arith)
]

decimal-nil : (v : ℕ) → decimal [] v ≡ v
unfolding decimal
decimal-nil v = refl

zero_digit : decimal (b'0' ∷ []) 0 ≡ 0
unfolding decimal
zero_digit = refl

-- In base 10 the digits of itoa, read back, give the number: the value itself if it is not
-- negative, else its absolute value behind a minus sign. There are at most 10 digits, so with the
-- sign they fit the buffer of 16. Fuel 11 is enough.
pub itoa-decimal :
    (fuel value : ℕ)
    → value < 2 ^ 32
    → 10 < fuel
    → (digits : List ℕ) × (itoa fuel value 10
        ≡ some (if is_negative value 10 then b'-' ∷ digits else digits))
      × (decimal digits 0 ≡ (if is_negative value 10 then 2 ^ 32 - value else value))
      × (length digits ≤ 10)
unfolding itoa
itoa-decimal fuel value word enough =
    let v : ℕ = if is_negative value 10 then 2 ^ 32 - value else value in
    let small : v < 10 ^ 10 = ground arith in
    let (digits, run, read, short) = itoa_loop-decimal fuel v 10 [] enough small in
    elim (Bool-cases (value == 0)) [
      | inl z ↦
          let e : value ≡ 0 = (==_iff value 0).0 z in
          (b'0' ∷ [], rw (itoa, e) refl, rw e zero_digit, omega arith)
      | inr some_value ↦ (digits, rw (itoa, some_value, run), read ∙ decimal-nil v, short)
    ]

-- A number of at most `k` decimal digits has no more than `k` characters.
pub itoa-short :
    (fuel value k : ℕ)
    → value < 10 ^ k
    → value < 2 ^ 31
    → 0 < k
    → k < fuel
    → (digits : List ℕ) × (itoa fuel value 10 ≡ some digits)
      × (decimal digits 0 ≡ value)
      × (length digits ≤ k)
unfolding itoa
itoa-short fuel value k small word some_digit enough =
    let (digits, run, read, short) = itoa_loop-decimal fuel value k [] enough small in
    let positive : is_negative value 10 ≡ false = ground arith in
    elim (Bool-cases (value == 0)) [
      | inl z ↦
          let e : value ≡ 0 = (==_iff value 0).0 z in
          (b'0' ∷ [], rw (itoa, e) refl, rw e zero_digit, omega arith)
      | inr some_value ↦ (
        digits,
        rw (itoa, some_value, positive, run, positive) refl,
        read ∙ decimal-nil value,
        omega arith,
      )
    ]

one_digit : (v base : ℕ) → v < base → (v / base ≡ 0) × (v % base ≡ v)
one_digit v base h = (grind arith, grind arith)

-- In a base up to 36 a one-digit number from ten on comes out wrong: the code adds 'a' to the digit
-- and does not take off ten.
pub itoa-letter :
    (fuel value base : ℕ)
    → 1 < fuel
    → 10 ≤ value
    → value < base
    → base ≤ 36
    → itoa fuel value base ≡ some ((b'a' + value) ∷ [])
unfolding itoa itoa_loop
itoa-letter zero value base enough letter digit small = absurd (omega arith)
itoa-letter (suc zero) value base enough letter digit small = absurd (omega arith)
itoa-letter (suc (suc fuel)) value base enough letter digit small =
    let (quotient, rest) = one_digit value base digit in
    let positive : is_negative value base ≡ false = ground arith in
    let nz : (value == 0) ≡ false = ground arith in
    let char : digit_char value ≡ b'a' + value = unfold digit_char in ground arith in
    rw (nz, positive, nz, quotient, rest, char, positive)
