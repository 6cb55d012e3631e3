-- ===== src/Fs/Mount/Children.antt =====
-- Renaming and replacing the children of an entry, as mount_device of kernel/fs/vfs.cpp does.
use weird_os.Base.{
  ℕ, ◌≡◌, ◌≢◌, refl, sym, ap, arith, true, false, ◌==◌, ==_iff, none, some, Option, List, [], ◌∷◌,
  All, Bool-cases, Option-cases, subst, inl, inr,
}
use weird_os.Fs.Vfs.{same_name, find_child, replace_child}

same_name_lem : (xs ys : List ℕ) → same_name xs ys ≡ true → xs ≡ ys
unfolding same_name
same_name_lem [] [] e = refl
same_name_lem [] (y ∷ ys) e = ground (arith, e)
same_name_lem (x ∷ xs) [] e = ground (arith, e)
same_name_lem (x ∷ xs) (y ∷ ys) e = elim (Bool-cases (x == y)) [
  | inl same ↦
      let rest : same_name xs ys ≡ true = rw same at e in
      rw ((==_iff x y).0 same, same_name_lem xs ys rest) refl
  | inr differ ↦ let never : false ≡ true = rw differ at e in ground (arith, never)
]

same_name_self : (xs : List ℕ) → same_name xs xs ≡ true
unfolding same_name
same_name_self [] = refl
same_name_self (x ∷ xs) = rw ((==_iff x x).1 refl, same_name_self xs) refl

abbrev or_zero : Option ℕ → ℕ
or_zero none = 0
or_zero (some d) = d

-- Another entry is in none of the places.
abbrev pub Absent : ℕ → List ℕ → Type 0
Absent m ds = All (λ d. d ≢ m) ds

-- Entry `m` gets a name, and the others keep theirs.
module _ (ident ident' : ℕ → List ℕ) (m : ℕ) (others : (c : ℕ) → c ≢ m → ident' c ≡ ident c) where
  pub find_child-renamed :
      (other : List ℕ) (ds : List ℕ)
      → Absent m ds
      → find_child ident' other ds ≡ find_child ident other ds
  unfolding find_child
  find_child-renamed other [] a = refl
  find_child-renamed other (d ∷ ds) (here, a) =
      rw (others d here, find_child-renamed other ds a) refl

  module _ (name : List ℕ) (at_m : ident' m ≡ name) where
    replaced-here :
        (c : ℕ) (ds : List ℕ)
        → Absent m (c ∷ ds)
        → same_name name (ident c) ≡ true
        → (replace_child ident' name m (c ∷ ds) ≡ some (m ∷ ds))
          × (find_child ident' name (m ∷ ds) ≡ some m)
          × ((other : List ℕ)
              → same_name other name ≡ false
              → find_child ident' other (m ∷ ds) ≡ find_child ident other (c ∷ ds))
    unfolding find_child replace_child
    replaced-here c ds (here, a) same =
        let c_name : ident c ≡ name = sym (same_name_lem name (ident c) same) in
        (
          rw (others c here, same) refl,
          rw (at_m, same_name_self name) refl,
          λ other n. rw (at_m, n, c_name, n) (find_child-renamed other ds a),
        )

    replaced-behind :
        (c : ℕ) (ds ds' : List ℕ)
        → c ≢ m
        → same_name name (ident c) ≡ false
        → replace_child ident' name m ds ≡ some ds'
        → find_child ident' name ds' ≡ some m
        → ((other : List ℕ)
            → same_name other name ≡ false
            → find_child ident' other ds' ≡ find_child ident other ds)
        → (replace_child ident' name m (c ∷ ds) ≡ some (c ∷ ds'))
          × (find_child ident' name (c ∷ ds') ≡ some m)
          × ((other : List ℕ)
              → same_name other name ≡ false
              → find_child ident' other (c ∷ ds') ≡ find_child ident other (c ∷ ds))
    unfolding find_child replace_child
    replaced-behind c ds ds' here differ r f o = (
      rw (others c here, differ, r) refl,
      rw (others c here, differ) f,
      λ other n. rw (others c here, o other n) refl,
    )

    -- A child that is found is replaced by the new one, which has the name now, and by every other
    -- name the same is found as before.
    pub replace_child-find_child :
        (ds : List ℕ) (d : ℕ)
        → Absent m ds
        → find_child ident name ds ≡ some d
        → (ds' : List ℕ) × (replace_child ident' name m ds ≡ some ds')
          × (find_child ident' name ds' ≡ some m)
          × ((other : List ℕ)
              → same_name other name ≡ false
              → find_child ident' other ds' ≡ find_child ident other ds)
    unfolding find_child replace_child
    replace_child-find_child [] d a e = ground (arith, e)
    replace_child-find_child (c ∷ ds) d (here, a) e = elim (Bool-cases (same_name name (ident c))) [
      | inl same ↦ let (r, f, o) = replaced-here c ds (here, a) same in (m ∷ ds, r, f, o)
      | inr differ ↦
          let below : find_child ident name ds ≡ some d = rw differ at e in
          let (ds', r, f, o) = replace_child-find_child ds d a below in
          let (r', f', o') = replaced-behind c ds ds' here differ r f o in (c ∷ ds', r', f', o')
    ]

-- A child that is found has the name, and is in the list.
pub find_child-name :
    (ident : ℕ → List ℕ) (name : List ℕ) (m : ℕ) (ds : List ℕ) (d : ℕ)
    → Absent m ds
    → find_child ident name ds ≡ some d
    → (ident d ≡ name) × (d ≢ m)
unfolding find_child
find_child-name ident name m [] d a e = ground (arith, e)
find_child-name ident name m (c ∷ ds) d (here, a) e = elim (Bool-cases (same_name name (ident c))) [
  | inl same ↦
      let at : some c ≡ some d = rw same at e in
      let c_is_d : c ≡ d = ap (λ (o : Option ℕ). or_zero o) at in
      (rw (← c_is_d) (sym (same_name_lem name (ident c) same)), rw (← c_is_d) here)
  | inr differ ↦
      let below : find_child ident name ds ≡ some d = rw differ at e in
      find_child-name ident name m ds d a below
]

abbrev or_nil : Option (List ℕ) → List ℕ
or_nil none = []
or_nil (some ds) = ds

-- An entry that is neither there nor put there is absent afterwards.
pub replace_child-Absent :
    (ident : ℕ → List ℕ) (name : List ℕ) (m x : ℕ) (ds ds' : List ℕ)
    → m ≢ x
    → Absent x ds
    → replace_child ident name m ds ≡ some ds'
    → Absent x ds'
unfolding replace_child
replace_child-Absent ident name m x [] ds' new a e = ground (arith, e)
replace_child-Absent ident name m x (d ∷ ds) ds' new (here, a) e =
    elim (Bool-cases (same_name name (ident d))) [
      | inl same ↦
          let at : some (m ∷ ds) ≡ some ds' = rw same at e in
          subst (Absent x) (ap (λ o. or_nil o) at) (new, a)
      | inr differ ↦ elim (Option-cases (replace_child ident name m ds)) [
        | inl none_below ↦
            let at : none ≡ some ds' = rw (differ, none_below) at e in ground (arith, at)
        | inr (below, r) ↦
            let at : some (d ∷ below) ≡ some ds' = rw (differ, r) at e in
            subst (Absent x) (ap (λ o. or_nil o) at)
              (here, replace_child-Absent ident name m x ds below new a r)
      ]
    ]
