-- ===== src/Kmalloc/Returns.antt =====
-- Total correctness of a run: no failed assertion, no fault, enough fuel, and a postcondition.
use weird_os.Base.{ℕ, ◌≡◌, ◌<◌, Option, some, arith}
use weird_os.Kmalloc.Memory.{
  BlockHeader, Memory, Run, ok, Cmd, and_then, write, load, set_magic, set_size, set_next,
  set_previous,
}

pub data Returns {A : Type 0} (P : A → Memory → Type 0) : Run A → Type 0 where
  returns : {a : A} {m : Memory} → P a m → Returns P (ok a m)

module _ {A : Type 0} {P : A → Memory → Type 0} where
  pub bind :
      {B : Type 0} {Q : B → Memory → Type 0} {r : Run A} {k : A → Cmd B}
      → Returns P r
      → ((a : A) (m : Memory) → P a m → Returns Q (k a m))
      → Returns Q (and_then r k)
  bind (returns p) next = next _ _ p

  pub weaken :
      {Q : A → Memory → Type 0} {r : Run A}
      → Returns P r
      → ((a : A) (m : Memory) → P a m → Q a m)
      → Returns Q r
  weaken (returns p) to = returns (to _ _ p)

pub write_self : (f : ℕ → Option BlockHeader) (p : ℕ) (h : BlockHeader) → write f p h p ≡ some h
unfolding write
write_self f p h = ground arith

-- What a header access does at an address that holds a header.
abbrev pub stored : Memory → ℕ → BlockHeader → Memory
stored m p h = record m { headers = write m.headers p h }

module _ (m : Memory) {p : ℕ} {h : BlockHeader} (pos : 0 < p) (holds : m.headers p ≡ some h) where
  pub load-ok : load p m ≡ ok h m
  unfolding load
  load-ok = ground arith

  pub set_magic-ok : (v : ℕ) → set_magic p v m ≡ ok tt (stored m p (record h { magic = v }))
  unfolding set_magic
  set_magic-ok v = rw load-ok

  pub set_size-ok : (v : ℕ) → set_size p v m ≡ ok tt (stored m p (record h { size = v }))
  unfolding set_size
  set_size-ok v = rw load-ok

  pub set_next-ok : (v : ℕ) → set_next p v m ≡ ok tt (stored m p (record h { next = v }))
  unfolding set_next
  set_next-ok v = rw load-ok

  pub set_previous-ok :
      (v : ℕ) → set_previous p v m ≡ ok tt (stored m p (record h { previous = v }))
  unfolding set_previous
  set_previous-ok v = rw load-ok
