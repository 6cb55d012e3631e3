-- ===== src/Util/Text.antt =====
-- split of includes/util/string.h. A string is the list of its characters.
use weird_os.Base.{
  take-append, drop-append, ◌-◌, ℕ, ◌+◌, ◌≡◌, refl, sym, ap, ◌∙◌, arith, ◌==◌, ==_iff,
  if◌then◌else◌, inl, inr, Bool-cases, List, [], ◌∷◌, ◌++◌, length, take, drop, length-append,
}
use mathlib.Core.List.{append_assoc, append-nil}

unfoldable pub substr : List ℕ → (start len : ℕ) → List ℕ
substr data_chars start len = take len (drop start data_chars)

unfoldable pub slice : List ℕ → (start end : ℕ) → List ℕ
slice data_chars start end = take (end - start) (drop start data_chars)

-- The second loop of split and what follows it, by the characters left: `i` is the index of the
-- first of them.
unfoldable pub split_loop :
    (sep : ℕ) (chars rest : List ℕ) (i sec_start sec_size : ℕ) → List (List ℕ)
split_loop sep chars [] i sec_start sec_size = substr chars sec_start sec_size ∷ []
split_loop sep chars (c ∷ rest) i sec_start sec_size =
    if c == sep
    then substr chars sec_start sec_size ∷ split_loop sep chars rest (i + 1) (i + 1) 0
    else split_loop sep chars rest (i + 1) sec_start (sec_size + 1)

unfoldable pub split : (sep : ℕ) → List ℕ → List (List ℕ)
unfolding substr split_loop
split sep chars = split_loop sep chars chars 0 0 0

-- The sections between separators, the first of them behind `front`.
unfoldable pub sections : (sep : ℕ) (front rest : List ℕ) → List (List ℕ)
sections sep front [] = front ∷ []
sections sep front (c ∷ rest) =
    let next = sections sep [] rest in
    let longer = sections sep (front ++ (c ∷ [])) rest in if c == sep then front ∷ next else longer

-- The sections with separators between them.
unfoldable pub join : (sep : ℕ) → List (List ℕ) → List ℕ
join sep [] = []
join sep (s ∷ []) = s
join sep (s ∷ t ∷ ss) = s ++ (sep ∷ join sep (t ∷ ss))

regroup :
    (before front : List ℕ) (x : ℕ) (rest : List ℕ)
    → before ++ (front ++ (x ∷ rest)) ≡ (before ++ (front ++ (x ∷ []))) ++ rest
regroup before front x rest = simp (append_assoc)

length-grown :
    (before front : List ℕ) (x : ℕ)
    → length (before ++ (front ++ (x ∷ []))) ≡ length before + length front + 1
length-grown before front x =
    rw (length-append before (front ++ (x ∷ [])), length-append front (x ∷ [])) (omega arith)

-- The indices of the loop mean: before the section `front` stand the characters `before`.
split_loop-sections :
    (sep : ℕ) (chars before front rest : List ℕ) (i sec_start sec_size : ℕ)
    → chars ≡ before ++ (front ++ rest)
    → sec_start ≡ length before
    → sec_size ≡ length front
    → i ≡ length before + length front
    → split_loop sep chars rest i sec_start sec_size ≡ sections sep front rest
unfolding split_loop sections substr
split_loop-sections sep chars before front [] i sec_start sec_size at a b c =
    rw (at, a, b, drop-append, take-append)
split_loop-sections sep chars before front (x ∷ rest) i sec_start sec_size at a b c =
    elim (Bool-cases (x == sep)) [
      | inl cut ↦
          let moved : chars ≡ (before ++ (front ++ (x ∷ []))) ++ ([] ++ rest) =
            at ∙ regroup before front x rest in
          let count : i + 1 ≡ length (before ++ (front ++ (x ∷ []))) =
            ap (λ n. n + 1) c ∙ sym (length-grown before front x) in
          let tail : split_loop sep chars rest (i + 1) (i + 1) 0 ≡ sections sep [] rest =
            split_loop-sections sep chars (before ++ (front ++ (x ∷ []))) [] rest (i + 1) (i + 1) 0
              moved count refl (ground (arith, count)) in
          let head : take sec_size (drop sec_start chars) ≡ front =
            rw (at, a, b, drop-append, take-append) refl in
          rw (cut, tail, head) refl
      | inr go ↦
          let moved : chars ≡ before ++ ((front ++ (x ∷ [])) ++ rest) =
            at ∙ ap (λ ys. before ++ ys) (sym (append_assoc front (x ∷ []) rest)) in
          let longer : length (front ++ (x ∷ [])) ≡ length front + 1 =
            length-append front (x ∷ []) in
          rw go (
            split_loop-sections sep chars before (front ++ (x ∷ [])) rest (i + 1) sec_start
              (sec_size + 1) moved a (ground (arith, b, longer)) (ground (arith, c, longer)))
    ]

-- `split` cuts the text at every separator: its result is the sections between separators.
pub split-sections : (sep : ℕ) (chars : List ℕ) → split sep chars ≡ sections sep [] chars
unfolding split
split-sections sep chars = split_loop-sections sep chars [] [] chars 0 0 0 refl refl refl refl

join-section :
    (sep : ℕ) (s front rest : List ℕ)
    → join sep (s ∷ sections sep front rest) ≡ s ++ (sep ∷ join sep (sections sep front rest))
unfolding sections join
join-section sep s front [] = refl
join-section sep s front (c ∷ rest) = elim (Bool-cases (c == sep)) [
  | inl cut ↦ rw cut refl
  | inr go ↦ rw go (join-section sep s (front ++ (c ∷ [])) rest)
]

join-sections : (sep : ℕ) (front rest : List ℕ) → join sep (sections sep front rest) ≡ front ++ rest
unfolding sections
join-sections sep front [] = unfold join in sym (append-nil front)
join-sections sep front (c ∷ rest) =
    let cut_rest : join sep (sections sep [] rest) ≡ rest = join-sections sep [] rest in
    elim (Bool-cases (c == sep)) [
      | inl cut ↦ rw (cut, join-section sep front [] rest, cut_rest, (==_iff c sep).0 cut) refl
      | inr go ↦
          rw (go, join-sections sep (front ++ (c ∷ [])) rest, append_assoc front (c ∷ []) rest) refl
    ]

-- The sections `split` returns, with a separator between each two, are the text.
pub join-split : (sep : ℕ) (chars : List ℕ) → join sep (split sep chars) ≡ chars
join-split sep chars = ap (join sep) (split-sections sep chars) ∙ join-sections sep [] chars

split_loop-cons :
    (sep : ℕ) (chars rest : List ℕ) (i start size : ℕ)
    → (section : List ℕ) × (others : List (List ℕ)) × (split_loop sep chars rest i start size
        ≡ section ∷ others)
unfolding split_loop
split_loop-cons sep chars [] i start size = (_, _, refl)
split_loop-cons sep chars (c ∷ rest) i start size = elim (Bool-cases (c == sep)) [
  | inl cut ↦ rw cut (_, _, refl)
  | inr go ↦ rw go (split_loop-cons sep chars rest (i + 1) start (size + 1))
]

-- There is always a section.
pub split-cons :
    (sep : ℕ) (chars : List ℕ)
    → (section : List ℕ) × (others : List (List ℕ)) × (split sep chars ≡ section ∷ others)
unfolding split
split-cons sep chars = split_loop-cons sep chars chars 0 0 0
