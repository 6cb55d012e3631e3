-- ===== src/Fs/Initrd/Lookup.antt =====
-- Looking up names among the entries of kernel/fs/initrd.cpp that show a tree of the host.
use weird_os.Base.{
  ℕ, ◌≡◌, refl, sym, ◌∙◌, subst, Option, none, some, List, [], ◌∷◌, Bool-cases, Option-cases, inl,
  inr,
}
use weird_os.Fs.Initrd.{directory_like, Cache}
use weird_os.Fs.Initrd.Shows.{Serves, Shows}
use weird_os.Fs.Resolve.{walk}
use weird_os.Fs.Vfs.{same_name, find_child, get_child, Resolved, found, missing}
use weird_os.Makefs.{Files, end, file, directory}
use weird_os.Makefs.Encodes.{visited}
use mathlib.Core.Option.{or_else}
use weird_os.Makefs.Names.{
  Entry, a_file, a_directory, entry_of, lookup, reordered, reordered?, first_of, first_of-visited,
  lookup-none, lookup-some, or_else-none,
}

-- An entry of the cache shows an entry of a tree in the kernel's order.
abbrev pub Shown : (all : List ℕ) → Cache → (low high d : ℕ) → Entry → Type 0
Shown all c low high d (a_file content) =
    (c.dirents.children d ≡ []) × Serves all (c.m_inode d) content
Shown all c low high d (a_directory t) =
    ((c.m_inode d).class ≡ directory_like) × Shows all c d low high (c.dirents.children d) t

abbrev pub FoundAs : (all : List ℕ) → Cache → (low high : ℕ) → Option ℕ → Option Entry → Type 0
FoundAs all c low high r none = r ≡ none
FoundAs all c low high r (some e) = (d : ℕ) × (r ≡ some d) × Shown all c low high d e

find_child-FoundAs :
    (all : List ℕ) (c : Cache) (low high p : ℕ) (ids : List ℕ) (t : Files) (name : List ℕ)
    → Shows all c p low high ids t
    → FoundAs all c low high (find_child c.dirents.ident name ids) (first_of t name)
unfolding find_child first_of
find_child-FoundAs all c low high p ids end name s = rw s refl
find_child-FoundAs all c low high p ids (file n stat content rest) name
      (d, ids', e, lo, hi, here, s) =
    elim (Bool-cases (same_name name n)) [
      | inl same ↦ rw (e, here.ident, same) (d, refl, (here.children, here.serves))
      | inr other ↦ rw (e, here.ident, other) (find_child-FoundAs all c low high p ids' rest name s)
    ]
find_child-FoundAs all c low high p ids (directory n stat children rest) name
      (d, kids, ids', e, lo, hi, here, below, s) =
    elim (Bool-cases (same_name name n)) [
      | inl same ↦
          rw (e, here.ident, same)
            (
              d,
              refl,
              (
                here.class,
                subst (λ ks. Shows all c d low high ks children) (sym here.children) below,
              ),
            )
      | inr other ↦ rw (e, here.ident, other) (find_child-FoundAs all c low high p ids' rest name s)
    ]

-- What a walk along the names must give when they lead to the entry of the host.
abbrev pub Outcome : (all : List ℕ) → Cache → (low high : ℕ) → Resolved → Option Entry → Type 0
Outcome all c low high r none = r ≡ missing
Outcome all c low high r (some e) = (d : ℕ) × (r ≡ found d) × Shown all c low high d (reordered e)

module _ (all : List ℕ) (c : Cache) (low high : ℕ) where
  pub child-FoundAs :
      (d : ℕ) (t : Files) (name : List ℕ)
      → Shows all c d low high (c.dirents.children d) (visited t end)
      → FoundAs all c low high (get_child c.dirents d name) (reordered? (entry_of t name))
  unfolding get_child or_else first_of
  child-FoundAs d t name s =
      subst (FoundAs all c low high (get_child c.dirents d name))
        (first_of-visited t end name ∙ or_else-none (reordered? (entry_of t name)))
        (find_child-FoundAs all c low high d (c.dirents.children d) (visited t end) name s)

  pub walk-no_child :
      (d : ℕ) (name : List ℕ) (names : List (List ℕ))
      → get_child c.dirents d name ≡ none
      → walk c.dirents d (name ∷ names) ≡ missing
  unfolding walk
  walk-no_child d name names e = rw (walk, e) refl

  pub walk-child :
      (d d' : ℕ) (name : List ℕ) (names : List (List ℕ))
      → get_child c.dirents d name ≡ some d'
      → walk c.dirents d (name ∷ names) ≡ walk c.dirents d' names
  unfolding walk
  walk-child d d' name names e = rw (walk, e) refl

  -- One step down from a directory, and what the rest of the names gives.
  children-Outcome :
      (d : ℕ) (t : Files) (name : List ℕ) (names : List (List ℕ))
      → ((e : Entry) (d' : ℕ)
          → Shown all c low high d' (reordered e)
          → Outcome all c low high (walk c.dirents d' names) (lookup e names))
      → Shows all c d low high (c.dirents.children d) (visited t end)
      → Outcome all c low high
          (walk c.dirents d (name ∷ names))
          (lookup (a_directory t) (name ∷ names))
  children-Outcome d t name names further s =
      let child = child-FoundAs d t name s in
      elim (Option-cases (entry_of t name)) [
        | inl e ↦
            let nowhere =
              subst (λ o. FoundAs all c low high (get_child c.dirents d name) (reordered? o)) e
                child in
            subst (Outcome all c low high (walk c.dirents d (name ∷ names)))
              (sym (lookup-none t name names e)) (walk-no_child d name names nowhere)
        | inr (entry, e) ↦
            let (d', there, shown) : FoundAs all c low high (get_child c.dirents d name)
                (some (reordered entry)) =
              subst (λ o. FoundAs all c low high (get_child c.dirents d name) (reordered? o)) e
                child in
            subst (Outcome all c low high (walk c.dirents d (name ∷ names)))
              (sym (lookup-some t name names entry e))
              (subst (λ r. Outcome all c low high r (lookup entry names))
                (sym (walk-child d d' name names there)) (further entry d' shown))
      ]

  -- A walk from an entry that shows one of the host ends where the names lead to.
  pub walk-Outcome :
      (names : List (List ℕ)) (e : Entry) (d : ℕ)
      → Shown all c low high d (reordered e)
      → Outcome all c low high (walk c.dirents d names) (lookup e names)
  unfolding walk lookup get_child find_child
  walk-Outcome [] e d s = (d, refl, s)
  walk-Outcome (name ∷ names) (a_file content) d (s, serves) =
      walk-no_child d name names (rw (get_child, s) refl)
  walk-Outcome (name ∷ names) (a_directory t) d (s, shows) =
      children-Outcome d t name names (λ e d'. walk-Outcome names e d') shows

  -- The same from the root, which is looked up by one name at least.
  pub root-Outcome :
      (d : ℕ) (t : Files) (name : List ℕ) (names : List (List ℕ))
      → Shows all c d low high (c.dirents.children d) (visited t end)
      → Outcome all c low high
          (walk c.dirents d (name ∷ names))
          (lookup (a_directory t) (name ∷ names))
  root-Outcome d t name names s =
      children-Outcome d t name names (λ e d'. walk-Outcome names e d') s
