-- ===== src/Clib/Memory.antt =====
-- The functions on memory and strings of kernel/clib/string.cpp. Memory is a function from
-- addresses to bytes. Loops over strings run on fuel; `none` means that it ran out.
use weird_os.Base.{
  sub32, ℕ, zero, suc, ◌+◌, ◌%◌, Bool, true, false, Option, none, some, ◌==◌, if◌then◌else◌,
}

abbrev pub Bytes : Type 0
Bytes = ℕ → ℕ

abbrev pub poke : Bytes → ℕ → ℕ → Bytes
poke m p v a = if a == p then v else m a

-- `for (i = 0; i < n; ++i) dest[i] = src[i]`, by the rounds left.
unfoldable pub memcpy_loop : (rounds i dest src : ℕ) → Bytes → Bytes
memcpy_loop zero i dest src m = m
memcpy_loop (suc n) i dest src m = memcpy_loop n (i + 1) dest src (poke m (dest + i) (m (src + i)))

unfoldable pub memcpy : (dest src n : ℕ) → Bytes → Bytes
memcpy dest src n m = memcpy_loop n 0 dest src m

unfoldable pub memset_loop : (rounds i str c : ℕ) → Bytes → Bytes
memset_loop zero i str c m = m
memset_loop (suc n) i str c m = memset_loop n (i + 1) str c (poke m (str + i) (c % 256))

unfoldable pub memset : (str c n : ℕ) → Bytes → Bytes
memset str c n m = memset_loop n 0 str c m

unfoldable pub strlen_loop : ℕ → Bytes → (str len : ℕ) → Option ℕ
strlen_loop zero m str len = none
strlen_loop (suc fuel) m str len =
    let rest = strlen_loop fuel m str (len + 1) in if m (str + len) == 0 then some len else rest

unfoldable pub strlen : ℕ → Bytes → (str : ℕ) → Option ℕ
strlen fuel m str = strlen_loop fuel m str 0

-- `for (i = 0; i < len1; i++) if (str1[i] != str2[i]) return false; return true`
unfoldable pub equal_bytes : (rounds i str1 str2 : ℕ) → Bytes → Bool
equal_bytes zero i str1 str2 m = true
equal_bytes (suc n) i str1 str2 m =
    if m (str1 + i) == m (str2 + i) then equal_bytes n (i + 1) str1 str2 m else false

-- The kernel's strcmp is true on equal strings.
unfoldable pub strcmp : ℕ → Bytes → (str1 str2 : ℕ) → Option Bool
strcmp fuel m str1 str2 = if str1 == str2 then some true else elim (strlen fuel m str1) [
  | none ↦ none
  | some len1 ↦ elim (strlen fuel m str2) [
    | none ↦ none
    | some len2 ↦ if len1 == len2 then some (equal_bytes len1 0 str1 str2 m) else some false
  ]
]

-- `for (; n--; s1++, s2++)`; the result is an int, as its 32-bit pattern.
unfoldable pub memcmp : (s1 s2 n : ℕ) → Bytes → ℕ
memcmp s1 s2 zero m = 0
memcmp s1 s2 (suc n) m = if m s1 == m s2 then memcmp (s1 + 1) (s2 + 1) n m else sub32 (m s1) (m s2)
