-- ===== src/Page/FrameLaws.antt =====
-- What the frame operations of kernel/page.cpp do to the set of frames in use.
use weird_os.Base.{
  ℕ, zero, suc, ◌+◌, ◌*◌, ◌/◌, ◌%◌, ◌<◌, ◌≡◌, refl, ap, ◌∙◌, Bool, true, false, Option, none, some,
  List, [], ◌∷◌, ◌==◌, ◌&&◌, ◌⊎◌, inl, inr, arith, length, length-set, get_elem?, set, All,
  if◌then◌else◌,
}
use native.Mathlib.Decide.{dec_lt}
use weird_os.Page.Frames.{
  Word, Frames, write_bit, all_ones, first_clear, first_frame_from, first_frame,
}

-- Bit `r` of word `q`, and the bit of a frame.
unfoldable pub bit_of : Frames → ℕ → ℕ → Option Bool
bit_of [] q r = none
bit_of (w ∷ ws) zero r = get_elem? w r
bit_of (w ∷ ws) (suc q) r = bit_of ws q r

unfoldable pub bit_at : Frames → ℕ → Option Bool
bit_at frames frame = bit_of frames (frame / 32) (frame % 32)

abbrev pub AreWords : Frames → Type 0
AreWords = All (λ w. length w ≡ 32)

-- The search in one word.
pub record Clear (w : Word) (k : ℕ) : Type 0 where
  pub within : k < length w
  pub clear : get_elem? w k ≡ some false
  pub lowest : (i : ℕ) → i < k → get_elem? w i ≡ some true

first_clear-Clear :
    (w : Word) (j : ℕ)
    → ((k : ℕ) × (all_ones w ≡ false) × (first_clear w j ≡ some (j + k)) × Clear w k)
      ⊎ ((all_ones w ≡ true) × ((i : ℕ) → i < length w → get_elem? w i ≡ some true))
unfolding first_clear all_ones
first_clear-Clear [] j = inr (refl, λ i h. absurd (omega arith))
first_clear-Clear (false ∷ w) j = inl (
  0,
  refl,
  ap some (omega arith),
  record { within = omega arith; clear = refl; lowest = λ i h. absurd (omega arith) },
)
first_clear-Clear (true ∷ w) j = elim (first_clear-Clear w (j + 1)) [
  | inl (k, some_clear, e, c) ↦ inl (
    suc k,
    some_clear,
    e ∙ ap some (omega arith),
    record { within = omega (arith, c.within); clear = c.clear; lowest = below c.lowest },
  )
  | inr (full, all) ↦ inr (full, below all)
]
  where
    below :
        {n : ℕ}
        → ((i : ℕ) → i < n → get_elem? w i ≡ some true)
        → (i : ℕ) → i < suc n
        → get_elem? (true ∷ w) i ≡ some true
    below all zero h = refl
    below all (suc i) h = all i (omega arith)

-- The search in the whole set.
pub record FirstClear (frames : Frames) (q r : ℕ) : Type 0 where
  pub word : q < length frames
  pub bit : r < 32
  pub clear : bit_of frames q r ≡ some false
  pub words_below : (q' r' : ℕ) → q' < q → r' < 32 → bit_of frames q' r' ≡ some true
  pub bits_below : (r' : ℕ) → r' < r → bit_of frames q r' ≡ some true

abbrev Full : Frames → Type 0
Full frames = (q r : ℕ) → q < length frames → r < 32 → bit_of frames q r ≡ some true

first_frame_from-FirstClear :
    (frames : Frames) (i : ℕ)
    → AreWords frames
    → ((q : ℕ) × (r : ℕ) × (first_frame_from frames i ≡ (i + q) * 32 + r) × FirstClear frames q r)
      ⊎ ((first_frame_from frames i ≡ 0) × Full frames)
unfolding first_frame_from bit_of
first_frame_from-FirstClear [] i words = inr (refl, λ q r h. absurd (omega arith))
first_frame_from-FirstClear (w ∷ ws) i (size, words) = elim (first_clear-Clear w 0) [
  | inl (k, some_clear, e, c) ↦ inl (
    0,
    k,
    rw (some_clear, e) (omega arith),
    record {
      word = omega arith;
      bit = omega (arith, c.within);
      clear = c.clear;
      words_below = λ q' r' h. absurd (omega arith);
      bits_below = c.lowest;
    },
  )
  | inr (full, all) ↦ elim (first_frame_from-FirstClear ws (i + 1) words) [
    | inl (q, r, e, f) ↦ inl (
      suc q,
      r,
      rw (full, e) (omega arith),
      record {
        word = omega (arith, f.word);
        bit = f.bit;
        clear = f.clear;
        words_below = next size all f.words_below;
        bits_below = f.bits_below;
      },
    )
    | inr (e, rest) ↦
        inr (rw (full, e) refl, λ q r h l. next size all (λ q r h' l'. rest q r h' l') q r h l)
  ]
]
  where
    next :
        {n : ℕ}
        → length w ≡ 32
        → ((j : ℕ) → j < length w → get_elem? w j ≡ some true)
        → ((q r : ℕ) → q < n → r < 32 → bit_of ws q r ≡ some true)
        → (q r : ℕ) → q < suc n
        → r < 32
        → bit_of (w ∷ ws) q r ≡ some true
    next size all rest zero r h l = all r (omega arith)
    next size all rest (suc q) r h l = rest q r (omega arith) l

-- In a set of 32-bit words first_frame returns the lowest frame whose bit is clear; if every bit is
-- set it returns 0.
pub first_frame-lowest :
    (frames : Frames)
    → AreWords frames
    → ((bit_at frames (first_frame frames) ≡ some false)
        × (first_frame frames < 32 * length frames)
        × ((j : ℕ) → j < first_frame frames → bit_at frames j ≡ some true))
      ⊎ ((first_frame frames ≡ 0)
          × ((j : ℕ) → j < 32 * length frames → bit_at frames j ≡ some true))
unfolding first_frame bit_at
first_frame-lowest frames words = elim (first_frame_from-FirstClear frames 0 words) [
  | inl (q, r, e, f) ↦
      let here : first_frame_from frames 0 / 32 ≡ q = omega (arith, f.bit) in
      let bit : first_frame_from frames 0 % 32 ≡ r = omega (arith, f.bit) in
      inl (
        rw (here, bit) f.clear,
        omega (arith, f.word, f.bit),
        λ j h. elim (dec_lt (j / 32) q) [
          | yes below ↦ f.words_below (j / 32) (j % 32) below (omega arith)
          | no above ↦
              let same : j / 32 ≡ q = omega (arith, f.bit) in
              rw same (f.bits_below (j % 32) (omega (arith, f.bit)))
        ],
      )
  | inr (e, full) ↦ inr (e, λ j h. full (j / 32) (j % 32) (omega arith) (omega arith))
]

-- Writing one bit.
get_elem?-some {ℓ} :
    {A : Type ℓ} (xs : List A) (i : ℕ) → i < length xs → (x : A) × (get_elem? xs i ≡ some x)
get_elem?-some [] i h = absurd (omega arith)
get_elem?-some (x ∷ xs) zero h = (x, refl)
get_elem?-some (x ∷ xs) (suc i) h = get_elem?-some xs i (omega arith)

get_elem?-set {ℓ} :
    {A : Type ℓ} (xs : List A) (i j : ℕ) (v : A)
    → i < length xs
    → get_elem? (set xs i v) j ≡ (if i == j then some v else get_elem? xs j)
get_elem?-set [] i j v h = absurd (omega arith)
get_elem?-set (x ∷ xs) zero zero v h = refl
get_elem?-set (x ∷ xs) zero (suc j) v h = ground arith
get_elem?-set (x ∷ xs) (suc i) zero v h = ground arith
get_elem?-set (x ∷ xs) (suc i) (suc j) v h = ground (arith, get_elem?-set xs i j v)

module _ (r : ℕ) (v : Bool) (w : Word) where
  AreWords-get :
      (frames : Frames) (q : ℕ) → AreWords frames → get_elem? frames q ≡ some w → length w ≡ 32
  AreWords-get [] q words e = cc
  AreWords-get (x ∷ ws) zero (size, words) e = ground arith
  AreWords-get (x ∷ ws) (suc q) (size, words) e = AreWords-get ws q words e

  AreWords-set :
      (frames : Frames) (q : ℕ)
      → AreWords frames
      → get_elem? frames q ≡ some w
      → AreWords (set frames q (set w r v))
  AreWords-set [] q words e = tt
  AreWords-set (x ∷ ws) zero (size, words) e =
      (length-set w r v ∙ AreWords-get (x ∷ ws) zero (size, words) e, words)
  AreWords-set (x ∷ ws) (suc q) (size, words) e = (size, AreWords-set ws q words e)

  bit_of-set :
      (frames : Frames) (q q' r' : ℕ)
      → get_elem? frames q ≡ some w
      → r < length w
      → bit_of (set frames q (set w r v)) q' r'
        ≡ (if q == q' && r == r' then some v else bit_of frames q' r')
  unfolding bit_of
  bit_of-set [] q q' r' e l = cc
  bit_of-set (x ∷ ws) zero zero r' e l = ground (arith, get_elem?-set w r r' v l)
  bit_of-set (x ∷ ws) zero (suc q') r' e l = ground arith
  bit_of-set (x ∷ ws) (suc q) zero r' e l = ground arith
  bit_of-set (x ∷ ws) (suc q) (suc q') r' e l = ground (arith, bit_of-set ws q q' r' e l)

-- The set `frames'` differs from `frames` at most at one frame, which has the bit `v`.
pub record Writes (frames : Frames) (frame : ℕ) (v : Bool) (frames' : Frames) : Type 0 where
  pub words : AreWords frames'
  pub length_same : length frames' ≡ length frames
  pub bits : (j : ℕ) → bit_at frames' j ≡ (if frame == j then some v else bit_at frames j)

same_bit : (f j : ℕ) → (f / 32 == j / 32 && f % 32 == j % 32) ≡ (f == j)
same_bit f j = ground arith

pub write_bit-Writes :
    (frames : Frames) (frame : ℕ) (v : Bool)
    → AreWords frames
    → frame < 32 * length frames
    → (frames' : Frames) × (write_bit frames frame v ≡ some frames') × Writes frames frame v frames'
unfolding write_bit bit_at
write_bit-Writes frames frame v words h =
    let within : frame / 32 < length frames = omega arith in
    let bit : frame % 32 < 32 = omega arith in
    let (w, e) = get_elem?-some frames (frame / 32) within in
    let size = AreWords-get (frame % 32) v w frames (frame / 32) words e in
    (
      set frames (frame / 32) (set w (frame % 32) v),
      rw (e, write_bit),
      record {
        words = AreWords-set (frame % 32) v w frames (frame / 32) words e;
        length_same = length-set frames _ _;
        bits = λ j.
            bit_of-set (frame % 32) v w frames (frame / 32) (j / 32) (j % 32) e (omega arith)
            ∙ ground (arith, same_bit frame j);
      },
    )
