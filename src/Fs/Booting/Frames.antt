-- ===== src/Fs/Booting/Frames.antt =====
-- The tree of kernel/fs/initrd.cpp stays what it is when devices are mounted beside it.
use weird_os.Base.{
  ℕ, ◌≤◌, ◌<◌, ◌≡◌, sym, ap, ◌∙◌, subst, arith, none, some, Option, List, ◌∷◌, Bool-cases, ◌⊎◌, inl,
  inr,
}
use weird_os.Fs.Initrd.{Cache, Inode}
use weird_os.Fs.Initrd.Lookup.{Shown}
use weird_os.Makefs.Names.{Entry, a_file, a_directory}
use weird_os.Fs.Initrd.Shows.{Shows, Shows-keep, Keeps}
use weird_os.Fs.Mount.Children.{Absent}
use weird_os.Fs.Vfs.{same_name, find_child}
use weird_os.Makefs.{Files, end, file, directory}

-- The children of a shown directory are older than any new entry.
pub Shows-Absent :
    (all : List ℕ) (c : Cache) (p low high m : ℕ) (ids : List ℕ) (t : Files)
    → high ≤ m
    → Shows all c p low high ids t
    → Absent m ids
Shows-Absent all c p low high m ids end l s = rw s tt
Shows-Absent all c p low high m ids (file name stat content rest) l (d, ids', e, lo, hi, here, s) =
    rw e (λ q. omega arith, Shows-Absent all c p low high m ids' rest l s)
Shows-Absent all c p low high m ids (directory name stat children rest) l
      (d, kids, ids', e, lo, hi, here, below, s) =
    rw e (λ q. omega arith, Shows-Absent all c p low high m ids' rest l s)

abbrev or_zero : Option ℕ → ℕ
or_zero none = 0
or_zero (some d) = d

first_or_rest :
    (ident : ℕ → List ℕ) (name : List ℕ) (d r : ℕ) (ds : List ℕ)
    → find_child ident name (d ∷ ds) ≡ some r
    → (r ≡ d) ⊎ (find_child ident name ds ≡ some r)
unfolding find_child
first_or_rest ident name d r ds f = elim (Bool-cases (same_name name (ident d))) [
  | inl same ↦
      let at : some d ≡ some r = rw same at f in inl (sym (ap (λ (o : Option ℕ). or_zero o) at))
  | inr differ ↦ inr (rw differ at f)
]

-- A child that is found knows its parent.
pub find_child-parent :
    (all : List ℕ) (c : Cache) (p low high : ℕ) (ids : List ℕ) (t : Files) (name : List ℕ) (r : ℕ)
    → Shows all c p low high ids t
    → find_child c.dirents.ident name ids ≡ some r
    → (c.dirents.parent r ≡ some p) × (low ≤ r) × (r < high)
unfolding find_child
find_child-parent all c p low high ids end name r s f =
    let never : none ≡ some r = rw s at f in ground (arith, never)
find_child-parent all c p low high ids (file n stat content rest) name r
      (d, ids', e, lo, hi, here, s) f =
    let at : find_child c.dirents.ident name (d ∷ ids') ≡ some r =
      subst (λ ks. find_child c.dirents.ident name ks ≡ some r) e f in
    elim (first_or_rest c.dirents.ident name d r ids' at) [
      | inl same ↦ rw same (here.parent, lo, hi)
      | inr behind ↦ find_child-parent all c p low high ids' rest name r s behind
    ]
find_child-parent all c p low high ids (directory n stat children rest) name r
      (d, kids, ids', e, lo, hi, here, below, s) f =
    let at : find_child c.dirents.ident name (d ∷ ids') ≡ some r =
      subst (λ ks. find_child c.dirents.ident name ks ≡ some r) e f in
    elim (first_or_rest c.dirents.ident name d r ids' at) [
      | inl same ↦ rw same (here.parent, lo, hi)
      | inr behind ↦ find_child-parent all c p low high ids' rest name r s behind
    ]

-- An entry that is shown is shown where its fields and those below it are the same.
pub Shown-keep :
    (all : List ℕ) {c c' : Cache} (low high d : ℕ) (e : Entry)
    → Keeps c c' low high
    → low ≤ d
    → d < high
    → Shown all c low high d e
    → Shown all c' low high d e
Shown-keep all low high d (a_file content) k l u (none_below, s) =
    let same = k d l u in
    (
      same.children ∙ none_below,
      record {
        before = s.before;
        behind = s.behind;
        splits = s.splits;
        class = ap (λ (i : Inode). i.class) same.m_inode ∙ s.class;
        size = ap (λ (i : Inode). i.size) same.m_inode ∙ s.size;
      },
    )
Shown-keep all {c} {c'} low high d (a_directory t) k l u (class, s) =
    let same = k d l u in
    (
      ap (λ (i : Inode). i.class) same.m_inode ∙ class,
      subst (λ ids. Shows all c' d low high ids t) (sym same.children)
          (Shows-keep all d (c.dirents.children d) t k (omega arith) (omega arith) s),
    )
