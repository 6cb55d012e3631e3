-- ===== src/Base/Slices.antt =====
-- take and drop at the seam of two lists.
use Prim.Native.Nat.{ℕ, zero, suc, ◌+◌, ◌-◌, ◌≤◌}
use mathlib.Core.Path.{◌≡◌, refl, ap, ◌∙◌}
use mathlib.Core.List.{List, [], ◌∷◌, ◌++◌}
use native.Mathlib.Omega.{arith}
use weird_os.Base.Lists.{length, take, drop}

module _ {ℓ} {A : Type ℓ} where
  pub take-append : (xs ys : List A) → take (length xs) (xs ++ ys) ≡ xs
  take-append [] ys = refl
  take-append (x ∷ xs) ys = ap (λ t. x ∷ t) (take-append xs ys)

  pub drop-append : (xs ys : List A) → drop (length xs) (xs ++ ys) ≡ ys
  drop-append [] ys = refl
  drop-append (x ∷ xs) ys = drop-append xs ys

  pub take-append_short : (n : ℕ) (xs ys : List A) → n ≤ length xs → take n (xs ++ ys) ≡ take n xs
  take-append_short zero xs ys l = refl
  take-append_short (suc n) [] ys l = absurd (omega arith)
  take-append_short (suc n) (x ∷ xs) ys l =
      ap (λ t. x ∷ t) (take-append_short n xs ys (omega arith))

  pub drop-append_short :
      (n : ℕ) (xs ys : List A) → n ≤ length xs → drop n (xs ++ ys) ≡ drop n xs ++ ys
  drop-append_short zero xs ys l = refl
  drop-append_short (suc n) [] ys l = absurd (omega arith)
  drop-append_short (suc n) (x ∷ xs) ys l = drop-append_short n xs ys (omega arith)

  pub drop-append_more : (n : ℕ) (xs ys : List A) → drop (length xs + n) (xs ++ ys) ≡ drop n ys
  drop-append_more n [] ys = ap (λ k. drop k ys) (omega arith)
  drop-append_more n (x ∷ xs) ys =
      let shifted : suc (length xs) + n ≡ suc (length xs + n) = omega arith in
      ap (λ k. drop k (x ∷ (xs ++ ys))) shifted ∙ drop-append_more n xs ys

  pub length-drop : (n : ℕ) (xs : List A) → length (drop n xs) ≡ length xs - n
  length-drop zero xs = omega arith
  length-drop (suc n) [] = omega arith
  length-drop (suc n) (x ∷ xs) = omega (arith, length-drop n xs)

  pub take_all : (n : ℕ) (xs : List A) → length xs ≤ n → take n xs ≡ xs
  take_all zero [] l = refl
  take_all (suc n) [] l = refl
  take_all zero (x ∷ xs) l = absurd (omega arith)
  take_all (suc n) (x ∷ xs) l = ap (λ t. x ∷ t) (take_all n xs (omega arith))

  pub length-take : (n : ℕ) (xs : List A) → n ≤ length xs → length (take n xs) ≡ n
  length-take zero xs l = omega arith
  length-take (suc n) [] l = omega arith
  length-take (suc n) (x ∷ xs) l = omega (arith, length-take n xs (omega arith))
