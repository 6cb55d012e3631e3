-- ===== src/Fs/Initrd/Shows.antt =====
-- How the entries that kernel/fs/initrd.cpp caches show a tree of the host, and what one call of
-- initrd::cache writes before it recurs.
use weird_os.Base.{
  ℕ, zero, ◌≤◌, ◌<◌, ◌≡◌, ◌≢◌, refl, ap, ◌∙◌, arith, true, false, ◌==◌, ==_iff, some, List, [], ◌∷◌,
  ◌++◌, length, Bool-cases, inl, inr,
}
use weird_os.Fs.Image.{InitrdDirent, InitrdHeader}
use weird_os.Fs.Initrd.{directory_like, rdfs_inode, Inode, Cache, make_inode, add_child, cache_one}
use weird_os.Makefs.{Files, end, file, directory}
use mathlib.Core.List.{append_assoc}

-- Entry `d` is the same in both.
pub record SameAt (c c' : Cache) (d : ℕ) : Type 0 where
  pub ident : c'.dirents.ident d ≡ c.dirents.ident d
  pub parent : c'.dirents.parent d ≡ c.dirents.parent d
  pub children : c'.dirents.children d ≡ c.dirents.children d
  pub m_inode : c'.m_inode d ≡ c.m_inode d

pub SameAt-trans : {c c' c'' : Cache} {d : ℕ} → SameAt c c' d → SameAt c' c'' d → SameAt c c'' d
SameAt-trans a b = record {
  ident = b.ident ∙ a.ident;
  parent = b.parent ∙ a.parent;
  children = b.children ∙ a.children;
  m_inode = b.m_inode ∙ a.m_inode;
}

-- The inode of a file reads the content.
pub record Serves (all : List ℕ) (i : Inode) (content : List ℕ) : Type 0 where
  pub before : List ℕ
  pub behind : List ℕ
  pub splits : all ≡ before ++ (content ++ behind)
  pub class : i.class ≡ rdfs_inode (length before)
  pub size : i.size ≡ length content

pub record FileEntry (all : List ℕ) (c : Cache) (p d : ℕ) (name content : List ℕ) : Type 0 where
  pub ident : c.dirents.ident d ≡ name
  pub parent : c.dirents.parent d ≡ some p
  pub children : c.dirents.children d ≡ []
  pub serves : Serves all (c.m_inode d) content

pub record DirectoryEntry (c : Cache) (p d : ℕ) (kids : List ℕ) (name : List ℕ) : Type 0 where
  pub ident : c.dirents.ident d ≡ name
  pub parent : c.dirents.parent d ≡ some p
  pub children : c.dirents.children d ≡ kids
  pub class : (c.m_inode d).class ≡ directory_like

-- The children `ids` of `p` are those of the tree, all of them entries from `low` up to `high`.
abbrev pub Shows : (all : List ℕ) → Cache → (p low high : ℕ) (ids : List ℕ) → Files → Type 0
Shows all c p low high ids end = ids ≡ []
Shows all c p low high ids (file name stat content rest) =
    (d : ℕ) × (ids' : List ℕ) × (ids ≡ d ∷ ids')
    × (low ≤ d)
    × (d < high)
    × FileEntry all c p d name content
    × Shows all c p low high ids' rest
Shows all c p low high ids (directory name stat children rest) =
    (d : ℕ) × (kids : List ℕ) × (ids' : List ℕ) × (ids ≡ d ∷ ids')
    × (low ≤ d)
    × (d < high)
    × DirectoryEntry c p d kids name
    × Shows all c d low high kids children
    × Shows all c p low high ids' rest

-- Both have the same entries from `low` up to `high`.
abbrev pub Keeps : Cache → Cache → (low high : ℕ) → Type 0
Keeps c c' low high = (d : ℕ) → low ≤ d → d < high → SameAt c c' d

pub FileEntry-keep :
    {all : List ℕ} {c c' : Cache} {p d : ℕ} {name content : List ℕ}
    → SameAt c c' d
    → FileEntry all c p d name content
    → FileEntry all c' p d name content
FileEntry-keep s e = record {
  ident = s.ident ∙ e.ident;
  parent = s.parent ∙ e.parent;
  children = s.children ∙ e.children;
  serves = record {
    before = e.serves.before;
    behind = e.serves.behind;
    splits = e.serves.splits;
    class = ap (λ (i : Inode). i.class) s.m_inode ∙ e.serves.class;
    size = ap (λ (i : Inode). i.size) s.m_inode ∙ e.serves.size;
  };
}

pub DirectoryEntry-keep :
    {c c' : Cache} {p d : ℕ} {kids name : List ℕ}
    → SameAt c c' d
    → DirectoryEntry c p d kids name
    → DirectoryEntry c' p d kids name
DirectoryEntry-keep s e = record {
  ident = s.ident ∙ e.ident;
  parent = s.parent ∙ e.parent;
  children = s.children ∙ e.children;
  class = ap (λ (i : Inode). i.class) s.m_inode ∙ e.class;
}

pub Shows-keep :
    (all : List ℕ) {c c' : Cache} {low high low' high' : ℕ} (p : ℕ) (ids : List ℕ) (t : Files)
    → Keeps c c' low high
    → low' ≤ low
    → high ≤ high'
    → Shows all c p low high ids t
    → Shows all c' p low' high' ids t
Shows-keep all p ids end k l h s = s
Shows-keep all p ids (file name stat content rest) k l h (d, ids', e, lo, hi, here, s) = (
  d,
  ids',
  e,
  omega arith,
  omega arith,
  FileEntry-keep (k d lo hi) here,
  Shows-keep all p ids' rest k l h s,
)
Shows-keep all p ids (directory name stat children rest) k l h
      (d, kids, ids', e, lo, hi, here, below, s) =
    (
      d,
      kids,
      ids',
      e,
      omega arith,
      omega arith,
      DirectoryEntry-keep (k d lo hi) here,
      Shows-keep all d kids children k l h below,
      Shows-keep all p ids' rest k l h s,
    )

-- `p` has the new children `ids`, and the other entries so far are the same.
pub record Extends (c c' : Cache) (p : ℕ) (ids : List ℕ) : Type 0 where
  pub grows : c.next ≤ c'.next
  pub others : (d : ℕ) → d < c.next → d ≢ p → SameAt c c' d
  pub ident : c'.dirents.ident p ≡ c.dirents.ident p
  pub parent : c'.dirents.parent p ≡ c.dirents.parent p
  pub children : c'.dirents.children p ≡ c.dirents.children p ++ ids
  pub m_inode : c'.m_inode p ≡ c.m_inode p

pub Extends-trans :
    {c c' c'' : Cache} {p : ℕ} {xs ys : List ℕ}
    → Extends c c' p xs
    → Extends c' c'' p ys
    → Extends c c'' p (xs ++ ys)
Extends-trans {c} {p} {xs} {ys} a b = record {
  grows = omega (arith, a.grows, b.grows);
  others = λ d l n. SameAt-trans (a.others d l n) (b.others d (omega (arith, a.grows)) n);
  ident = b.ident ∙ a.ident;
  parent = b.parent ∙ a.parent;
  children =
      b.children ∙ (ap (λ zs. zs ++ ys) a.children ∙ append_assoc (c.dirents.children p) xs ys);
  m_inode = b.m_inode ∙ a.m_inode;
}

-- What cache_one writes: one new entry, the last child of `p`.
pub cache_one-Extends :
    (header : InitrdHeader) (p : ℕ) (e : InitrdDirent) (c : Cache)
    → zero < p
    → p < c.next
    → Extends c (cache_one header p e c) p (c.next ∷ [])
unfolding cache_one add_child
cache_one-Extends header p e c l u =
    let nonzero : (p == 0) ≡ false = ground arith in
    let here : (p == p) ≡ true = (==_iff p p).1 refl in
    let old : (p == c.next) ≡ false = ground arith in
    record {
      grows = omega arith;
      others = λ d l n.
          let new : (d == c.next) ≡ false = ground arith in
          let other : (d == p) ≡ false = ground arith in
          record {
            ident = rw (nonzero, new) refl;
            parent = rw (nonzero, new) refl;
            children = rw (nonzero, other, new) refl;
            m_inode = rw new refl;
          };
      ident = rw (nonzero, old) refl;
      parent = rw (nonzero, old) refl;
      children = rw (nonzero, here, old) refl;
      m_inode = rw old refl;
    }

-- The new entry.
pub record NewEntry (header : InitrdHeader) (p : ℕ) (e : InitrdDirent) (c : Cache) (d : ℕ)
    : Type 0 where
  pub ident : c.dirents.ident d ≡ e.name
  pub parent : c.dirents.parent d ≡ some p
  pub children : c.dirents.children d ≡ []
  pub m_inode : c.m_inode d ≡ make_inode (header.inodes e.inode_id)

pub cache_one-NewEntry :
    (header : InitrdHeader) (p : ℕ) (e : InitrdDirent) (c : Cache)
    → p < c.next
    → NewEntry header p e (cache_one header p e c) c.next
unfolding cache_one add_child
cache_one-NewEntry header p e c u =
    let here : (c.next == c.next) ≡ true = (==_iff c.next c.next).1 refl in
    let other : (c.next == p) ≡ false = ground arith in
    elim (Bool-cases (p == 0)) [
      | inl null ↦ record {
        ident = rw (null, here) refl;
        parent = rw (null, here) refl;
        children = rw (null, here) refl;
        m_inode = rw here refl;
      }
      | inr nonzero ↦ record {
        ident = rw (nonzero, here) refl;
        parent = rw (nonzero, here) refl;
        children = rw (nonzero, other, here) refl;
        m_inode = rw here refl;
      }
    ]
