-- ===== src/Clib/Streams/Laws.antt =====
-- The output functions of kernel/clib/stdio.cpp print the characters of vfprintf in turn.
use weird_os.Base.{
  ℕ, ◌+◌, ◌%◌, ◌≡◌, refl, sym, ◌∙◌, ◌==◌, List, [], ◌∷◌, ◌++◌, Option, none, some, arith,
  Bool-cases, inl, inr,
}
use weird_os.Base.{zero, suc, length, get_or, ◌<◌, ◌≤◌, ◌⊎◌}
use weird_os.Clib.Memory.{Bytes, poke}
use weird_os.Clib.Printf.{
  Arg, Printed, ok, invalid_format, bad_arg, Conversion, prints, missing, convert, prepend,
}
use weird_os.Clib.Printf
use weird_os.Clib.Streams.{
  Stream, Run, returned, asserted, no_arg, and_then, fputc, fputs, vfprintf, blank_flush, vsprintf,
}

-- What was printed, and how the printing ended.
abbrev pub chars : Printed → List ℕ
chars (ok cs) = cs
chars (invalid_format cs) = cs
chars (bad_arg cs) = cs

abbrev pub outcome : {S : Type 0} → Printed → Stream S → Run S
outcome (ok cs) = returned
outcome (invalid_format cs) = asserted
outcome (bad_arg cs) = no_arg

chars-prepend : (cs : List ℕ) (p : Printed) → chars (prepend cs p) ≡ cs ++ chars p
chars-prepend cs (ok out) = refl
chars-prepend cs (invalid_format out) = refl
chars-prepend cs (bad_arg out) = refl

outcome-prepend :
    {S : Type 0} (cs : List ℕ) (p : Printed) → outcome {S = S} (prepend cs p) ≡ outcome p
outcome-prepend cs (ok out) = refl
outcome-prepend cs (invalid_format out) = refl
outcome-prepend cs (bad_arg out) = refl

and_then_elim :
    {S : Type 0} (o : Option (Stream S)) (g : Stream S → Option (Stream S)) (k : Stream S → Run S)
    → and_then (elim o [ none ↦ none | some f ↦ g f ]) k ≡ and_then o (λ f. and_then (g f) k)
and_then_elim none g k = refl
and_then_elim (some f) g k = refl

and_then_ext :
    {S : Type 0} (o : Option (Stream S)) (k l : Stream S → Run S)
    → ((f : Stream S) → k f ≡ l f)
    → and_then o k ≡ and_then o l
and_then_ext none k l same = refl
and_then_ext (some f) k l same = same f

module _ {S : Type 0} (flush_func : Stream S → Option (Stream S)) where
  abbrev pub prints_as : Printed → Stream S → Run S
  prints_as p f = and_then (fputs flush_func (chars p) f) (outcome p)

  fputs-append :
      (cs ds : List ℕ) (f : Stream S) (k : Stream S → Run S)
      → and_then (fputs flush_func (cs ++ ds) f) k
        ≡ and_then (fputs flush_func cs f) (λ f'. and_then (fputs flush_func ds f') k)
  unfolding fputs
  fputs-append [] ds f k = refl
  fputs-append (c ∷ cs) ds f k =
      and_then_elim (fputc flush_func c f) _ k
      ∙ and_then_ext (fputc flush_func c f) _ _ (λ f'. fputs-append cs ds f' k)
      ∙ sym (and_then_elim (fputc flush_func c f) _ _)

  prints_as-prepend :
      (cs : List ℕ) (p : Printed) (f : Stream S)
      → prints_as (prepend cs p) f ≡ and_then (fputs flush_func cs f) (prints_as p)
  prints_as-prepend cs p f =
      rw (chars-prepend, outcome-prepend) (fputs-append cs (chars p) f (outcome p))

  prints_as-one :
      (c : ℕ) (p : Printed) (f : Stream S)
      → prints_as (prepend (c ∷ []) p) f ≡ and_then (fputc flush_func c f) (prints_as p)
  unfolding fputs
  prints_as-one c p f =
      prints_as-prepend (c ∷ []) p f ∙ and_then_elim (fputc flush_func c f) some (prints_as p)

  conversion-prints :
      (conversion : Conversion) (format : List ℕ) (f : Stream S)
      → ((rest : List Arg) (f' : Stream S)
          → vfprintf flush_func format rest f' ≡ prints_as (Printf.vfprintf format rest) f')
      → elim conversion [
        | prints cs rest ↦ and_then (fputs flush_func cs f) (vfprintf flush_func format rest)
        | missing ↦ no_arg f
      ]
        ≡ prints_as
            (elim conversion [
              | prints cs rest ↦ prepend cs (Printf.vfprintf format rest)
              | missing ↦ bad_arg []
            ])
            f
  unfolding fputs
  conversion-prints (prints cs rest) format f hyp =
      and_then_ext (fputs flush_func cs f) _ _ (hyp rest)
      ∙ sym (prints_as-prepend cs (Printf.vfprintf format rest) f)
  conversion-prints missing format f hyp = refl

  -- vfprintf on any stream is fputs of the characters that its format and arguments print, and
  -- ends as they say.
  pub vfprintf-prints :
      (format : List ℕ) (args : List Arg) (f : Stream S)
      → vfprintf flush_func format args f ≡ prints_as (Printf.vfprintf format args) f
  unfolding vfprintf Printf.vfprintf fputs
  vfprintf-prints [] args f = refl
  vfprintf-prints (c ∷ []) args f = elim (Bool-cases (c == b'%')) [
    | inl percent ↦ rw percent refl
    | inr plain ↦ rw plain (sym (prints_as-one c (ok []) f))
  ]
  vfprintf-prints (c ∷ next ∷ format) args f = elim (Bool-cases (c == b'%')) [
    | inl percent ↦
        rw percent (conversion-prints (convert next args) format f (vfprintf-prints format))
    | inr plain ↦ rw plain (
        and_then_ext (fputc flush_func c f) _ _ (vfprintf-prints (next ∷ format) args)
        ∙ sym (prints_as-one c _ f))
  ]

poke-here : (m : Bytes) (a v : ℕ) → poke m a v a ≡ v
poke-here m a v = ground arith

first_stored :
    (c : ℕ) (cs : List ℕ) (m : Bytes) (p : ℕ)
    → m p ≡ c % 256
    → ((i : ℕ) → i < length cs → m (p + 1 + i) ≡ get_or cs i 0 % 256)
    → (i : ℕ) → i < suc (length cs)
    → m (p + i) ≡ get_or (c ∷ cs) i 0 % 256
first_stored c cs m p first others zero l = let e : p + 0 ≡ p = omega arith in rw e first
first_stored c cs m p first others (suc i) l =
    let e : p + suc i ≡ p + 1 + i = omega arith in rw e (others i (omega arith))

fputs-blank_flush :
    (cs : List ℕ) (f : Stream (Unit {0}))
    → (m : Bytes) × (fputs blank_flush cs f
        ≡ some (record f { memory = m; write_ptr = f.write_ptr + length cs }))
      × ((i : ℕ) → i < length cs → m (f.write_ptr + i) ≡ get_or cs i 0 % 256)
      × ((a : ℕ) → (a < f.write_ptr) ⊎ (f.write_ptr + length cs ≤ a) → m a ≡ f.memory a)
unfolding fputs blank_flush
fputs-blank_flush [] f =
    let e : f.write_ptr + 0 ≡ f.write_ptr = omega arith in
    (f.memory, rw e, (λ i l. absurd (omega arith)), λ a far. refl)
fputs-blank_flush (c ∷ cs) f =
    let g : Stream (Unit {0}) = record f {
      memory = poke f.memory f.write_ptr (c % 256);
      write_ptr = f.write_ptr + 1;
    } in
    let (m, run, stored, same) = fputs-blank_flush cs g in
    let e : f.write_ptr + suc (length cs) ≡ f.write_ptr + 1 + length cs = omega arith in
    (
      m,
      rw e run,
      first_stored c cs m f.write_ptr
          (same f.write_ptr (inl (omega arith)) ∙ poke-here f.memory f.write_ptr (c % 256)) stored,
      λ a far. same a (omega arith) ∙ ground arith,
    )

-- vsprintf behaves as vfprintf does and stores the characters that it prints from `c` on and nothing else: not a
-- final 0 either.
pub vsprintf-stores :
    (c : ℕ) (fmt : List ℕ) (args : List Arg) (m : Bytes)
    → let p = Printf.vfprintf fmt args in
      (m' : Bytes) × (vsprintf c fmt args m
        ≡ outcome p (record { memory = m'; write_ptr = c + length (chars p); device = tt }))
      × ((i : ℕ) → i < length (chars p) → m' (c + i) ≡ get_or (chars p) i 0 % 256)
      × ((a : ℕ) → (a < c) ⊎ (c + length (chars p) ≤ a) → m' a ≡ m a)
unfolding vsprintf
vsprintf-stores c fmt args m =
    let f : Stream (Unit {0}) = record { memory = m; write_ptr = c; device = tt } in
    let p = Printf.vfprintf fmt args in
    let (m', run, stored, same) = fputs-blank_flush (chars p) f in
    (m', vfprintf-prints blank_flush fmt args f ∙ rw run, stored, same)
