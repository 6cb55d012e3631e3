-- ===== src/Clib/MemoryLaws.antt =====
-- What the functions of kernel/clib/string.cpp compute.
use weird_os.Base.{
  ℕ, zero, suc, ◌+◌, ◌-◌, ◌%◌, ◌≤◌, ◌<◌, ◌≡◌, ◌≢◌, ◌↔◌, refl, ap, ◌∙◌, arith, ◌==◌, leb, ltb, ◌&&◌,
  if◌then◌else◌, ◌⊎◌, inl, inr, Bool-cases, ==_iff, List, [], ◌∷◌, length, Bool, true, false, some,
}
use weird_os.Clib.Memory.{
  Bytes, poke, memcpy_loop, memcpy, memset_loop, memset, strlen_loop, strlen, equal_bytes, strcmp,
}

memcpy_loop_lem :
    (n i dest src : ℕ) (m : Bytes) (a : ℕ)
    → (dest ≤ src) ⊎ (src + i + n ≤ dest)
    → memcpy_loop n i dest src m a
      ≡ (if leb (dest + i) a && ltb a (dest + i + n) then m (a - dest + src) else m a)
unfolding memcpy_loop
memcpy_loop_lem zero i dest src m a h = ground arith
memcpy_loop_lem (suc n) i dest src m a h =
    let m' = poke m (dest + i) (m (src + i)) in
    let first : src + i ≡ dest + i - dest + src = omega arith in
    memcpy_loop_lem n (i + 1) dest src m' a (omega arith) ∙ ground (arith, ap m first)

-- memcpy copies every byte and writes nowhere else, if the target starts below the source or behind
-- its end. So it moves bytes down within one buffer, too.
pub memcpy-copies :
    (dest src n : ℕ) (m : Bytes) (a : ℕ)
    → (dest ≤ src) ⊎ (src + n ≤ dest)
    → memcpy dest src n m a ≡ (if leb dest a && ltb a (dest + n) then m (a - dest + src) else m a)
unfolding memcpy
memcpy-copies dest src n m a h = ground (arith, memcpy_loop_lem n 0 dest src m a)

memset_loop_lem :
    (n i str c : ℕ) (m : Bytes) (a : ℕ)
    → memset_loop n i str c m a ≡ (if leb (str + i) a && ltb a (str + i + n) then c % 256 else m a)
unfolding memset_loop
memset_loop_lem zero i str c m a = ground arith
memset_loop_lem (suc n) i str c m a =
    ground (arith, memset_loop_lem n (i + 1) str c (λ b. if b == str + i then c % 256 else m b) a)

-- memset fills the area with the low byte and writes nowhere else.
pub memset-fills :
    (str c n : ℕ) (m : Bytes) (a : ℕ)
    → memset str c n m a ≡ (if leb str a && ltb a (str + n) then c % 256 else m a)
unfolding memset
memset-fills str c n m a = ground (arith, memset_loop_lem n 0 str c m a)

-- The characters `xs`, none of them 0, stand at `p` in front of a 0.
abbrev pub IsString : Bytes → ℕ → List ℕ → Type 0
IsString m p [] = m p ≡ 0
IsString m p (x ∷ xs) = (m p ≡ x) × (x ≢ 0) × IsString m (p + 1) xs

strlen_loop-length :
    (fuel : ℕ) (m : Bytes) (str len p : ℕ) (xs : List ℕ)
    → p ≡ str + len
    → IsString m p xs
    → length xs < fuel
    → strlen_loop fuel m str len ≡ some (len + length xs)
unfolding strlen_loop
strlen_loop-length zero m str len p xs here h enough = absurd (omega arith)
strlen_loop-length (suc fuel) m str len p [] here h enough =
    let stop : (m (str + len) == 0) ≡ true = rw (← here) ((==_iff (m p) 0).1 h) in
    rw stop (ap some (omega arith))
strlen_loop-length (suc fuel) m str len p (x ∷ xs) here (e, nz, h) enough =
    let go : (m (str + len) == 0) ≡ false = rw (← here, e) (ground arith) in
    rw go (
      strlen_loop-length fuel m str (len + 1) (p + 1) xs (omega arith) h (omega arith)
      ∙ ap some (omega arith))

-- With fuel for every character strlen is the number of characters before the 0.
pub strlen-length :
    (fuel : ℕ) (m : Bytes) (str : ℕ) (xs : List ℕ)
    → IsString m str xs
    → length xs < fuel
    → strlen fuel m str ≡ some (length xs)
unfolding strlen
strlen-length fuel m str xs h enough =
    strlen_loop-length fuel m str 0 str xs (omega arith) h enough ∙ ap some (omega arith)

equal_bytes-equal :
    (i str1 str2 p q : ℕ) (m : Bytes) (xs ys : List ℕ)
    → p ≡ str1 + i
    → q ≡ str2 + i
    → IsString m p xs
    → IsString m q ys
    → length xs ≡ length ys
    → (equal_bytes (length xs) i str1 str2 m ≡ true) ↔ (xs ≡ ys)
unfolding equal_bytes
equal_bytes-equal i str1 str2 p q m [] [] a b h k l = ((λ e. refl), (λ e. refl))
equal_bytes-equal i str1 str2 p q m [] (y ∷ ys) a b h k l = absurd (omega arith)
equal_bytes-equal i str1 str2 p q m (x ∷ xs) [] a b h k l = absurd (omega arith)
equal_bytes-equal i str1 str2 p q m (x ∷ xs) (y ∷ ys) a b (ex, nx, h) (ey, ny, k) l =
    let rest =
      equal_bytes-equal (i + 1) str1 str2 (p + 1) (q + 1) m xs ys (omega arith) (omega arith) h k
        (omega arith) in
    rw (← a, ← b, ex, ey) (ground (arith, rest.0), ground (arith, rest.1))

-- With fuel for every character strcmp on two strings at different addresses returns, and is true
-- exactly if they are equal. (The C standard's is 0 there.)
pub strcmp-equal :
    (fuel : ℕ) (m : Bytes) (str1 str2 : ℕ) (xs ys : List ℕ)
    → str1 ≢ str2
    → IsString m str1 xs
    → IsString m str2 ys
    → length xs < fuel
    → length ys < fuel
    → (r : Bool) × (strcmp fuel m str1 str2 ≡ some r) × ((r ≡ true) ↔ (xs ≡ ys))
unfolding strcmp
strcmp-equal fuel m str1 str2 xs ys ne h k enough enough' =
    let apart : (str1 == str2) ≡ false = ground arith in
    let len1 = strlen-length fuel m str1 xs h enough in
    let len2 = strlen-length fuel m str2 ys k enough' in
    elim (Bool-cases (length xs == length ys)) [
      | inl same ↦ (
        equal_bytes (length xs) 0 str1 str2 m,
        rw (strcmp, apart, len1, len2, same),
        equal_bytes-equal 0 str1 str2 str1 str2 m xs ys (omega arith) (omega arith) h k
            (ground arith),
      )
      | inr differ ↦ (
        false,
        rw (strcmp, apart, len1, len2, differ),
        ((λ e. cc), λ e. absurd (ground (arith, ap length e))),
      )
    ]
