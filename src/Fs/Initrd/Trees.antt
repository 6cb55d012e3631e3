-- ===== src/Fs/Initrd/Trees.antt =====
-- The entries that initrd::cache of kernel/fs/initrd.cpp makes of an encoded tree.
use weird_os.Base.{
  ℕ, zero, suc, ◌≤◌, ◌<◌, ◌≡◌, refl, sym, ap, ◌∙◌, subst, arith, true, false, some, List, [], ◌∷◌,
  ◌++◌,
}
use weird_os.Fs.Image.{InitrdDirent, InitrdHeader, is_dir}
use weird_os.Fs.Initrd.{Inode, Cache, make_inode, cache_one, when_linked, cache}
use weird_os.Fs.Initrd.Shows.{
  SameAt, SameAt-trans, Serves, FileEntry, FileEntry-keep, DirectoryEntry, DirectoryEntry-keep,
  Shows-keep, Extends, Extends-trans, NewEntry, cache_one-Extends, cache_one-NewEntry,
}
use weird_os.Fs.Initrd.Caches.{
  ModesAgree, cache-runs, when_linked-runs, Cached, make_inode-Serves, make_inode-directory,
}
use weird_os.Makefs.{Stat, Files, end, file, directory}
use weird_os.Makefs.Encodes.{entries, Stored, EntryAt, Encodes}
use mathlib.Core.List.{append-nil}

unchanged : (c : Cache) (d : ℕ) → SameAt c c d
unchanged c d = record { ident = refl; parent = refl; children = refl; m_inode = refl }

nothing-Extends : (c : Cache) (p : ℕ) → Extends c c p []
nothing-Extends c p = record {
  grows = omega arith;
  others = λ d l n. unchanged c d;
  ident = refl;
  parent = refl;
  children = sym (append-nil (c.dirents.children p));
  m_inode = refl;
}

-- New children of a later entry do not count.
Extends-inside :
    {c c2 c3 : Cache} {p d : ℕ} {ids kids : List ℕ}
    → p < c.next
    → c.next ≤ d
    → Extends c c2 p ids
    → Extends c2 c3 d kids
    → Extends c c3 p ids
Extends-inside {p} {d} u l a b =
    let kept = b.others p (omega (arith, a.grows)) (λ e. omega arith) in
    record {
      grows = omega (arith, a.grows, b.grows);
      others = λ k k_old n.
          SameAt-trans (a.others k k_old n)
            (b.others k (omega (arith, a.grows)) (λ e. omega arith));
      ident = kept.ident ∙ a.ident;
      parent = kept.parent ∙ a.parent;
      children = kept.children ∙ a.children;
      m_inode = kept.m_inode ∙ a.m_inode;
    }

module _ {header : InitrdHeader} {c : Cache} {j p d parent first sibling : ℕ} {name : List ℕ}
    {stat : Stat} (new : NewEntry header p (header.dirents j) c d)
    (e : EntryAt header j parent first sibling name stat) where
  new-ident : c.dirents.ident d ≡ name
  new-ident = new.ident ∙ ap (λ (t : InitrdDirent). t.name) e.dirent

  new-inode : c.m_inode d ≡ make_inode (header.inodes j)
  new-inode =
      new.m_inode ∙ ap (λ (t : InitrdDirent). make_inode (header.inodes t.inode_id)) e.dirent

  new-FileEntry :
      {all content : List ℕ}
      → is_dir stat.st_mode ≡ false
      → Stored all (header.inodes j) content
      → FileEntry all c p d name content
  new-FileEntry {all} {content} plain stored = record {
    ident = new-ident;
    parent = new.parent;
    children = new.children;
    serves =
        subst (λ i. Serves all i content) (sym new-inode)
          (make_inode-Serves (header.inodes j) (ap is_dir e.mode ∙ plain) stored);
  }

  new-DirectoryEntry : is_dir stat.st_mode ≡ true → DirectoryEntry c p d [] name
  new-DirectoryEntry dir = record {
    ident = new-ident;
    parent = new.parent;
    children = new.children;
    class =
        ap (λ (i : Inode). i.class) new-inode
        ∙ make_inode-directory (header.inodes j) (ap is_dir e.mode ∙ dir);
  }

-- A directory gets its children.
DirectoryEntry-extend :
    {c c' : Cache} {p d : ℕ} {kids name : List ℕ}
    → Extends c c' d kids
    → DirectoryEntry c p d [] name
    → DirectoryEntry c' p d kids name
DirectoryEntry-extend {kids} x e = record {
  ident = x.ident ∙ e.ident;
  parent = x.parent ∙ e.parent;
  children = x.children ∙ ap (λ ids. ids ++ kids) e.children;
  class = ap (λ (i : Inode). i.class) x.m_inode ∙ e.class;
}

-- The index that a link holds may be replaced by an equal one.
pub linked :
    (header : InitrdHeader) (fuel p : ℕ) (c : Cache) {i j : ℕ} {r : Cache}
    → i ≡ j
    → when_linked (cache header fuel p) j c ≡ some r
    → when_linked (cache header fuel p) i c ≡ some r
linked header fuel p c {r} same run =
    subst (λ k. when_linked (cache header fuel p) k c ≡ some r) (sym same) run

pub unlinked :
    (header : InitrdHeader) (fuel p : ℕ) (c : Cache) {i : ℕ}
    → i ≡ 0
    → when_linked (cache header fuel p) i c ≡ some c
unfolding when_linked
unlinked header fuel p c same = linked header fuel p c same refl

pub cache-Cached :
    (header : InitrdHeader) (all : List ℕ) (low high : ℕ)
    → zero < low
    → high ≤ 0xff
    → (t : Files) (fuel p j parent : ℕ) (c : Cache) → entries t ≤ fuel
    → zero < p
    → p < c.next
    → ModesAgree t
    → Encodes header all low high j parent t
    → Cached header all fuel p j c t
unfolding entries cache_one
cache-Cached header all low high pos top end fuel p j parent c enough pp p_old modes e =
    (c, [], unlinked header fuel p c e, nothing-Extends c p, refl)
cache-Cached header all low high pos top (file name stat content rest) zero p j parent c enough pp
      p_old modes e =
    absurd (omega arith)
cache-Cached header all low high pos top (file name stat content rest) (suc fuel) p j parent c
      enough pp p_old (plain, modes) (sibling, lo, hi, at, stored, e) =
    let c1 : Cache = cache_one header p (header.dirents j) c in
    let step : Extends c c1 p (c.next ∷ []) =
      cache_one-Extends header p (header.dirents j) c pp p_old in
    let new : NewEntry header p (header.dirents j) c1 c.next =
      cache_one-NewEntry header p (header.dirents j) c p_old in
    let (c2, ids, run, ext, shows) =
      cache-Cached header all low high pos top rest fuel p sibling parent c1 (omega arith) pp
        (omega arith) modes e in
    let here : FileEntry all c2 p c.next name content =
      FileEntry-keep (ext.others c.next (omega arith) (λ q. omega arith))
        (new-FileEntry new at plain stored) in
    (
      c2,
      c.next ∷ ids,
      when_linked-runs header (suc fuel) p j c.next c c2 (omega arith) (
          cache-runs header fuel p j c c2 c2 (omega arith)
            (omega (arith, ap (λ (t : InitrdDirent). t.inode_id) at.dirent))
            (linked header fuel p c1 (ap (λ (t : InitrdDirent). t.sibling) at.dirent) run)
            (unlinked header fuel c.next c2 (ap (λ (t : InitrdDirent). t.first_child) at.dirent))),
      Extends-trans step ext,
      (
        c.next,
        ids,
        refl,
        omega arith,
        omega (arith, ext.grows),
        here,
        Shows-keep all p ids rest (λ d l u. unchanged c2 d) (omega arith) (omega arith) shows,
      ),
    )
cache-Cached header all low high pos top (directory name stat children rest) zero p j parent c
      enough pp p_old modes e =
    absurd (omega arith)
cache-Cached header all low high pos top (directory name stat children rest) (suc fuel) p j parent c
      enough pp p_old (dir, below, modes) (sibling, first, lo, hi, at, inside, e) =
    let c1 : Cache = cache_one header p (header.dirents j) c in
    let step : Extends c c1 p (c.next ∷ []) =
      cache_one-Extends header p (header.dirents j) c pp p_old in
    let new : NewEntry header p (header.dirents j) c1 c.next =
      cache_one-NewEntry header p (header.dirents j) c p_old in
    let (c2, ids, run, ext, shows) =
      cache-Cached header all low high pos top rest fuel p sibling parent c1 (omega arith) pp
        (omega arith) modes e in
    let (c3, kids, run', ext', shows') =
      cache-Cached header all (suc j) high (omega arith) top children fuel c.next first j c2
        (omega arith) (omega arith) (omega (arith, ext.grows)) below inside in
    let empty : DirectoryEntry c2 p c.next [] name =
      DirectoryEntry-keep (ext.others c.next (omega arith) (λ q. omega arith))
        (new-DirectoryEntry new at dir) in
    (
      c3,
      c.next ∷ ids,
      when_linked-runs header (suc fuel) p j c.next c c3 (omega arith) (
          cache-runs header fuel p j c c2 c3 (omega arith)
            (omega (arith, ap (λ (t : InitrdDirent). t.inode_id) at.dirent))
            (linked header fuel p c1 (ap (λ (t : InitrdDirent). t.sibling) at.dirent) run)
            (linked header fuel c.next c2 (ap (λ (t : InitrdDirent). t.first_child) at.dirent)
              run')),
      Extends-inside p_old (omega arith) (Extends-trans step ext) ext',
      (
        c.next,
        kids,
        ids,
        refl,
        omega arith,
        omega (arith, ext.grows, ext'.grows),
        DirectoryEntry-extend ext' empty,
        Shows-keep all c.next kids children (λ d l u. unchanged c3 d) (omega (arith, ext.grows))
            (omega arith) shows',
        Shows-keep all p ids rest (λ d l u. ext'.others d u (λ q. omega arith)) (omega arith)
            (omega (arith, ext'.grows)) shows,
      ),
    )
