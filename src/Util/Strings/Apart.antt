-- ===== src/Util/Strings/Apart.antt =====
-- A new allocation of the heap shares no byte with an old one.
use weird_os.Base.{ℕ, ◌+◌, ◌≤◌, ◌≡◌, refl, arith, List, [], ◌∷◌, ◌++◌, ◌⊎◌, inl, inr}
use weird_os.Kmalloc.Live.{Ascending}

abbrev pub In : ℕ → ℕ → List (ℕ × ℕ) → Type 0
In a k [] = ⊥
In a k ((b, l) ∷ xs) = ((b ≡ a) × (l ≡ k)) ⊎ In a k xs

pub In-middle : (xs ys : List (ℕ × ℕ)) (p n : ℕ) → In p n (xs ++ (p, n) ∷ ys)
In-middle [] ys p n = inl (refl, refl)
In-middle ((b, l) ∷ xs) ys p n = inr (In-middle xs ys p n)

Ascending-above :
    (xs : List (ℕ × ℕ)) (low high a k : ℕ) → Ascending low high xs → In a k xs → low ≤ a
Ascending-above [] low high a k h i = absurd i
Ascending-above ((b, l) ∷ xs) low high a k (s, h) (inl (e, e')) = omega arith
Ascending-above ((b, l) ∷ xs) low high a k (s, h) (inr i) =
    omega (arith, Ascending-above xs (b + l) high a k h i)

pub Ascending-apart :
    (xs ys : List (ℕ × ℕ)) (low high p n a k : ℕ)
    → Ascending low high (xs ++ (p, n) ∷ ys)
    → In a k (xs ++ ys)
    → (a + k ≤ p) ⊎ (p + n ≤ a)
Ascending-apart [] ys low high p n a k (s, h) i = inr (Ascending-above ys (p + n) high a k h i)
Ascending-apart ((b, l) ∷ xs) ys low high p n a k (s, h) (inl (e, e')) =
    let q = Ascending-above (xs ++ (p, n) ∷ ys) (b + l) high p n h (In-middle xs ys p n) in
    inl (omega arith)
Ascending-apart ((b, l) ∷ xs) ys low high p n a k (s, h) (inr i) =
    Ascending-apart xs ys (b + l) high p n a k h i

Ascending-end : (xs : List (ℕ × ℕ)) (low high : ℕ) → Ascending low high xs → low ≤ high
Ascending-end [] low high h = h
Ascending-end ((b, l) ∷ xs) low high (s, h) = omega (arith, Ascending-end xs (b + l) high h)

-- The allocations lie between the bounds.
pub Ascending-within :
    (xs : List (ℕ × ℕ)) (low high a k : ℕ)
    → Ascending low high xs
    → In a k xs
    → (low ≤ a) × (a + k ≤ high)
Ascending-within [] low high a k h i = absurd i
Ascending-within ((b, l) ∷ xs) low high a k (s, h) (inl (e, e')) =
    (omega arith, omega (arith, Ascending-end xs (b + l) high h))
Ascending-within ((b, l) ∷ xs) low high a k (s, h) (inr i) =
    let (above, below) = Ascending-within xs (b + l) high a k h i in (omega arith, below)
