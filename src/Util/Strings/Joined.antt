-- ===== src/Util/Strings/Joined.antt =====
-- The bytes that operator+ of includes/util/string.h leaves, and the strings in them.
use weird_os.Base.{
  ℕ, zero, suc, ◌+◌, ◌-◌, ◌≤◌, ◌<◌, ◌≡◌, refl, sym, ap, ◌∙◌, arith, true, false, ◌==◌, ◌&&◌, leb,
  ltb, if◌then◌else◌, List, [], ◌∷◌, ◌++◌, length, length-append, get_or, ◌⊎◌, inl, inr, Bool-cases,
}
use weird_os.Util.Strings.{Str}

-- The string has the characters `xs`.
pub record Text (bytes : ℕ → ℕ) (s : Str) (xs : List ℕ) : Type 0 where
  pub size : s.length ≡ length xs
  pub reads : (i : ℕ) → i < length xs → bytes (s.chars + i) ≡ get_or xs i 0

get_or-append_front :
    (xs ys : List ℕ) (i : ℕ) → i < length xs → get_or (xs ++ ys) i 0 ≡ get_or xs i 0
get_or-append_front [] ys i l = absurd (omega arith)
get_or-append_front (x ∷ xs) ys zero l = refl
get_or-append_front (x ∷ xs) ys (suc i) l = get_or-append_front xs ys i (omega arith)

get_or-append_back :
    (xs ys : List ℕ) (i : ℕ) → length xs ≤ i → get_or (xs ++ ys) i 0 ≡ get_or ys (i - length xs) 0
get_or-append_back [] ys i l = ap (λ k. get_or ys k 0) (omega arith)
get_or-append_back (x ∷ xs) ys zero l = absurd (omega arith)
get_or-append_back (x ∷ xs) ys (suc i) l =
    get_or-append_back xs ys i (omega arith) ∙ ap (λ k. get_or ys k 0) (omega arith)

abbrev pub zeroed : (p last : ℕ) → (ℕ → ℕ) → ℕ → ℕ
zeroed p last f x = if x == last then 0 else (if x == p then 0 else f x)

abbrev pub copied : (dest src n : ℕ) → (ℕ → ℕ) → ℕ → ℕ
copied dest src n f x = if leb dest x && ltb x (dest + n) then f (x - dest + src) else f x

-- The bytes behind the two copies and the final 0.
abbrev pub joined : (p a m b n : ℕ) → (ℕ → ℕ) → ℕ → ℕ
joined p a m b n f x =
    if x == p + (m + n) then 0 else copied (p + m) b n (copied p a m (zeroed p (p + (m + n)) f)) x

copied_in :
    (dest src n : ℕ) (f : ℕ → ℕ) (i : ℕ) → i < n → copied dest src n f (dest + i) ≡ f (src + i)
copied_in dest src n f i l =
    let inside : (leb dest (dest + i) && ltb (dest + i) (dest + n)) ≡ true = ground arith in
    let at : dest + i - dest + src ≡ src + i = omega arith in rw (inside, at) refl

copied_out :
    (dest src n : ℕ) (f : ℕ → ℕ) (x : ℕ) → (x < dest) ⊎ (dest + n ≤ x) → copied dest src n f x ≡ f x
copied_out dest src n f x h =
    let outside : (leb dest x && ltb x (dest + n)) ≡ false = ground arith in rw outside refl

zeroed_out :
    (p last : ℕ) (f : ℕ → ℕ) (x : ℕ) → (x < p) ⊎ (last + 1 ≤ x) → p ≤ last → zeroed p last f x ≡ f x
zeroed_out p last f x h l =
    let n : (x == last) ≡ false = ground arith in
    let k : (x == p) ≡ false = ground arith in rw (n, k) refl

not_last : (last x v : ℕ) → (x == last) ≡ false → (if x == last then 0 else v) ≡ v
not_last last x v e = rw e refl

-- Another area than the new string's.
abbrev pub Beside : (p size a m : ℕ) → Type 0
Beside p size a m = (a + m ≤ p) ⊎ (p + size + 1 ≤ a)

module _ (p a m b n : ℕ) (f : ℕ → ℕ) where
  joined_out : (x : ℕ) → (x < p) ⊎ (p + (m + n) + 1 ≤ x) → joined p a m b n f x ≡ f x
  joined_out x h =
      let last : (x == p + (m + n)) ≡ false = ground arith in
      not_last (p + (m + n)) x _ last
      ∙ (copied_out (p + m) b n (copied p a m (zeroed p (p + (m + n)) f)) x (ground arith)
          ∙ (copied_out p a m (zeroed p (p + (m + n)) f) x (ground arith)
              ∙ zeroed_out p (p + (m + n)) f x h (omega arith)))

  joined_front : (i : ℕ) → i < m → Beside p (m + n) a m → joined p a m b n f (p + i) ≡ f (a + i)
  joined_front i l h =
      let last : (p + i == p + (m + n)) ≡ false = ground arith in
      not_last (p + (m + n)) (p + i) _ last
      ∙ (copied_out (p + m) b n (copied p a m (zeroed p (p + (m + n)) f)) (p + i) (ground arith)
          ∙ (copied_in p a m (zeroed p (p + (m + n)) f) i l
              ∙ zeroed_out p (p + (m + n)) f (a + i) (ground arith) (omega arith)))

  joined_back : (i : ℕ) → i < n → Beside p (m + n) b n → joined p a m b n f (p + m + i) ≡ f (b + i)
  joined_back i l h =
      let last : (p + m + i == p + (m + n)) ≡ false = ground arith in
      not_last (p + (m + n)) (p + m + i) _ last
      ∙ (copied_in (p + m) b n (copied p a m (zeroed p (p + (m + n)) f)) i l
          ∙ (copied_out p a m (zeroed p (p + (m + n)) f) (b + i) (ground arith)
              ∙ zeroed_out p (p + (m + n)) f (b + i) (ground arith) (omega arith)))

  -- A string beside the new one reads as before.
  pub joined-Text :
      (s : Str) (xs : List ℕ)
      → Beside p (m + n) s.chars (length xs)
      → Text f s xs
      → Text (joined p a m b n f) s xs
  joined-Text s xs h t = record {
    size = t.size;
    reads = λ i l. joined_out (s.chars + i) (ground arith) ∙ t.reads i l;
  }

-- The new string reads as both.
pub joined-Text_new :
    (p : ℕ) (s o : Str) (f : ℕ → ℕ) (xs ys : List ℕ)
    → Beside p (s.length + o.length) s.chars s.length
    → Beside p (s.length + o.length) o.chars o.length
    → Text f s xs
    → Text f o ys
    → Text
        (joined p s.chars s.length o.chars o.length f)
        (record { chars = p; length = s.length + o.length })
        (xs ++ ys)
joined-Text_new p s o f xs ys hs ho ts to = record {
  size = omega (arith, length-append xs ys, ts.size, to.size);
  reads = λ i l.
      let all = length-append xs ys in
      elim (Bool-cases (ltb i (length xs))) [
        | inl front ↦
            let l' : i < length xs = ground arith in
            joined_front p s.chars s.length o.chars o.length f i (omega (arith, ts.size)) hs
            ∙ (ts.reads i l' ∙ sym (get_or-append_front xs ys i l'))
        | inr back ↦
            let k : ℕ = i - length xs in
            let at : p + i ≡ p + s.length + k = let e = ts.size in ground arith in
            ap (joined p s.chars s.length o.chars o.length f) at
            ∙ (joined_back p s.chars s.length o.chars o.length f k (let e = to.size in ground arith)
                  ho
                ∙ (to.reads k (ground arith) ∙ sym (get_or-append_back xs ys i (ground arith))))
      ];
}
