-- ===== src/Base/Words.antt =====
-- uint32_t arithmetic: a word is a number below 2 ^ 32, and the wrap-around is written out.
use Prim.Native.Nat.{ℕ, ◌+◌, ◌-◌, ◌%◌, ◌^◌, ◌≤◌, ◌<◌}
use mathlib.Core.Path.{◌≡◌}
use native.Mathlib.Omega.{arith}

abbrev pub u32_mod : ℕ
u32_mod = 2 ^ 32

unfoldable pub add32 : ℕ → ℕ → ℕ
add32 a b = (a + b) % u32_mod

-- `-` on ℕ stops at 0, so the modulus is added first; for words `b`.
unfoldable pub sub32 : ℕ → ℕ → ℕ
sub32 a b = (a + u32_mod - b) % u32_mod

pub add32-eq-add : (a b : ℕ) → a + b < u32_mod → add32 a b ≡ a + b
unfolding add32
add32-eq-add a b h = omega arith

pub sub32-eq-sub : (a b : ℕ) → b ≤ a → a < u32_mod → sub32 a b ≡ a - b
unfolding sub32
sub32-eq-sub a b h small = omega arith
