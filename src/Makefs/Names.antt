-- ===== src/Makefs/Names.antt =====
-- Looking up names in a tree of the host of scripts/makefs.c.
use weird_os.Base.{
  ℕ, ◌≡◌, refl, ◌∙◌, Option, none, some, List, [], ◌∷◌, Bool-cases, inl, inr, if◌then◌else◌,
}
use weird_os.Fs.Vfs.{same_name}
use weird_os.Makefs.{Files, end, file, directory, is_dot}
use weird_os.Makefs.Encodes.{visited}
use mathlib.Core.Option.{or_else}

-- What a name of the host's tree stands for.
pub data Entry : Type 0 where
  a_file : (content : List ℕ) → Entry
  a_directory : (children : Files) → Entry

-- The last entry of the name, not counting "." and "..".
unfoldable pub entry_of : Files → (name : List ℕ) → Option Entry
unfolding is_dot same_name or_else
entry_of end name = none
entry_of (file n stat content rest) name =
    or_else (entry_of rest name)
      (if is_dot n then none else (if same_name name n then some (a_file content) else none))
entry_of (directory n stat children rest) name =
    or_else (entry_of rest name)
      (if is_dot n then none else (if same_name name n then some (a_directory children) else none))

-- What the names lead to, from an entry. There is nothing below a file.
unfoldable pub lookup : Entry → (names : List (List ℕ)) → Option Entry
unfolding entry_of
lookup e [] = some e
lookup (a_file content) (name ∷ names) = none
lookup (a_directory t) (name ∷ names) = elim (entry_of t name) [
  | none ↦ none
  | some e ↦ lookup e names
]

-- The first entry of the name, in a tree in the kernel's order.
unfoldable pub first_of : Files → (name : List ℕ) → Option Entry
unfolding same_name
first_of end name = none
first_of (file n stat content rest) name =
    if same_name name n then some (a_file content) else first_of rest name
first_of (directory n stat children rest) name =
    if same_name name n then some (a_directory children) else first_of rest name

-- A directory in the kernel's order.
abbrev pub reordered : Entry → Entry
reordered (a_file content) = a_file content
reordered (a_directory t) = a_directory (visited t end)

abbrev pub reordered? : Option Entry → Option Entry
reordered? none = none
reordered? (some e) = some (reordered e)

or_else-reordered? :
    (x y : Option Entry) (z : Option Entry)
    → or_else (reordered? x) (or_else (reordered? y) z) ≡ or_else (reordered? (or_else x y)) z
unfolding or_else
or_else-reordered? none y z = refl
or_else-reordered? (some e) y z = refl

pub first_of-visited :
    (t acc : Files) (name : List ℕ)
    → first_of (visited t acc) name ≡ or_else (reordered? (entry_of t name)) (first_of acc name)
unfolding first_of visited entry_of or_else
first_of-visited end acc name = refl
first_of-visited (file n stat content rest) acc name = elim (Bool-cases (is_dot n)) [
  | inl dot ↦ rw dot (
      first_of-visited rest acc name
      ∙ or_else-reordered? (entry_of rest name) none (first_of acc name))
  | inr plain ↦ elim (Bool-cases (same_name name n)) [
    | inl same ↦
        rw (plain, same)
          (first_of-visited rest (file n stat content acc) name
            ∙ (rw (first_of, same) refl
                ∙ or_else-reordered? (entry_of rest name) (some (a_file content))
                    (first_of acc name)))
    | inr other ↦
        rw (plain, other)
          (first_of-visited rest (file n stat content acc) name
            ∙ (rw (first_of, other) refl
                ∙ or_else-reordered? (entry_of rest name) none (first_of acc name)))
  ]
]
first_of-visited (directory n stat children rest) acc name = elim (Bool-cases (is_dot n)) [
  | inl dot ↦ rw dot (
      first_of-visited rest acc name
      ∙ or_else-reordered? (entry_of rest name) none (first_of acc name))
  | inr plain ↦ elim (Bool-cases (same_name name n)) [
    | inl same ↦
        rw (plain, same)
          (first_of-visited rest (directory n stat (visited children end) acc) name
            ∙ (rw (first_of, same) refl
                ∙ or_else-reordered? (entry_of rest name) (some (a_directory children))
                    (first_of acc name)))
    | inr other ↦
        rw (plain, other)
          (first_of-visited rest (directory n stat (visited children end) acc) name
            ∙ (rw (first_of, other) refl
                ∙ or_else-reordered? (entry_of rest name) none (first_of acc name)))
  ]
]

pub or_else-none : (o : Option Entry) → or_else o none ≡ o
unfolding or_else
or_else-none none = refl
or_else-none (some e) = refl

pub lookup-none :
    (t : Files) (name : List ℕ) (names : List (List ℕ))
    → entry_of t name ≡ none
    → lookup (a_directory t) (name ∷ names) ≡ none
unfolding lookup
lookup-none t name names e = rw (lookup, e) refl

pub lookup-some :
    (t : Files) (name : List ℕ) (names : List (List ℕ)) (entry : Entry)
    → entry_of t name ≡ some entry
    → lookup (a_directory t) (name ∷ names) ≡ lookup entry names
unfolding lookup
lookup-some t name names entry e = rw (lookup, e) refl
