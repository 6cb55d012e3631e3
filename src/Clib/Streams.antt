-- ===== src/Clib/Streams.antt =====
-- The output streams of kernel/clib/stdio.cpp. A stream's flush function is a parameter; what it
-- works on besides the memory of the buffer is the state of the device behind the stream.
pub mod Laws
use weird_os.Base.{ℕ, ◌+◌, ◌%◌, ◌==◌, if◌then◌else◌, List, [], ◌∷◌, Option, none, some}
use weird_os.Clib.Memory.{Bytes, poke}
use weird_os.Clib.Printf.{Arg, Conversion, prints, missing, convert}

-- _IO_write_ptr of a FILE; the other pointers are not used by the output functions.
pub record Stream (S : Type 0) : Type 0 where
  pub memory : Bytes
  pub write_ptr : ℕ
  pub device : S

-- A run of an output function: it returned, met the assertion "Invalid printf argument", read an
-- argument that was not passed, or did not return. Each holds the stream as it is then.
pub data Run (S : Type 0) : Type 0 where
  returned : Stream S → Run S
  asserted : Stream S → Run S
  no_arg : Stream S → Run S
  waits : Run S

abbrev pub and_then : {S : Type 0} → Option (Stream S) → (Stream S → Run S) → Run S
and_then none next = waits
and_then (some f) next = next f

module _ {S : Type 0} (flush_func : Stream S → Option (Stream S)) where
  unfoldable pub fflush : Stream S → Option (Stream S)
  fflush f = flush_func f

  unfoldable pub fputc : (c : ℕ) → Stream S → Option (Stream S)
  unfolding fflush
  fputc c f =
      fflush
        (record f { memory = poke f.memory f.write_ptr (c % 256); write_ptr = f.write_ptr + 1 })

  unfoldable pub fputs : (str : List ℕ) → Stream S → Option (Stream S)
  unfolding fputc
  fputs [] f = some f
  fputs (c ∷ str) f = elim (fputc c f) [ none ↦ none | some f' ↦ fputs str f' ]

  unfoldable pub vfprintf : (format : List ℕ) → List Arg → Stream S → Run S
  unfolding fputc fputs convert
  vfprintf [] args f = returned f
  vfprintf (c ∷ []) args f =
      if c == b'%' then asserted f else and_then (fputc c f) (vfprintf [] args)
  vfprintf (c ∷ next ∷ format) args f =
      let converted : Run S = elim (convert next args) [
        | prints cs rest ↦ and_then (fputs cs f) (vfprintf format rest)
        | missing ↦ no_arg f
      ] in
      let plain = and_then (fputc c f) (vfprintf (next ∷ format) args) in
      if c == b'%' then converted else plain

-- The stream of vsprintf writes to the memory at `write_ptr` and nothing else.
unfoldable pub blank_flush : Stream (Unit {0}) → Option (Stream (Unit {0}))
blank_flush f = some f

unfoldable pub vsprintf : (c : ℕ) (fmt : List ℕ) → List Arg → Bytes → Run (Unit {0})
unfolding vfprintf blank_flush
vsprintf c fmt args m =
    vfprintf blank_flush fmt args (record { memory = m; write_ptr = c; device = tt })
