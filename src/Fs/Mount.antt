-- ===== src/Fs/Mount.antt =====
-- mount_device of kernel/fs/vfs.cpp below the root.
pub mod Children
use weird_os.Base.{
  ℕ, ◌≡◌, ◌≢◌, refl, sym, ap, ◌∙◌, arith, true, false, ◌==◌, ==_iff, none, some, Option, List, [],
  ◌∷◌, All, Bool-cases, inl, inr,
}
use weird_os.Fs.Resolve.{walk, Short, resolve_path-walk}
use weird_os.Fs.Vfs.{
  Dirents, Vfs, assign, same_name, find_child, get_child, replace_child, with_ident, is_root_path,
  mounted, mount_over, mount_device, found, resolve_path,
}
use weird_os.Util.Text.{split}
use weird_os.Fs.Mount.Children.{
  Absent, find_child-renamed, replace_child-find_child, find_child-name, replace_child-Absent,
}

-- What mounting `m` over the root's child `name` leaves.
pub record Mounts (v : Vfs) (name : List ℕ) (m : ℕ) (v' : Vfs) : Type 0 where
  pub root : v'.root_dirent ≡ v.root_dirent
  pub there : get_child v'.dirents v.root_dirent name ≡ some m
  pub others :
      (other : List ℕ)
      → same_name other name ≡ false
      → get_child v'.dirents v.root_dirent other ≡ get_child v.dirents v.root_dirent other
  pub children : (e : ℕ) → e ≢ v.root_dirent → v'.dirents.children e ≡ v.dirents.children e
  pub parent : (e : ℕ) → v'.dirents.parent e ≡ v.dirents.parent e
  pub ident : (e : ℕ) → e ≢ m → v'.dirents.ident e ≡ v.dirents.ident e
  pub absent :
      (x : ℕ)
      → m ≢ x
      → Absent x (v.dirents.children v.root_dirent)
      → Absent x (v'.dirents.children v.root_dirent)

with_ident-here : (ds : Dirents) (m : ℕ) (name : List ℕ) → (with_ident ds m name).ident m ≡ name
with_ident-here ds m name = let h : (m == m) ≡ true = (==_iff m m).1 refl in rw h refl

with_ident-others :
    (ds : Dirents) (m : ℕ) (name : List ℕ) (i : ℕ)
    → i ≢ m
    → (with_ident ds m name).ident i ≡ ds.ident i
with_ident-others ds m name i n = let o : (i == m) ≡ false = ground arith in rw o refl

walk-one :
    (ds : Dirents) (p d : ℕ) (name : List ℕ)
    → get_child ds p name ≡ some d
    → walk ds p (name ∷ []) ≡ found d
unfolding walk
walk-one ds p d name e = rw (walk, e) refl

mount_over-mounted :
    (v : Vfs) (m d p : ℕ) (name ds' : List ℕ)
    → v.dirents.parent d ≡ some p
    → v.dirents.ident d ≡ name
    → replace_child v.dirents.ident name m (v.dirents.children p) ≡ some ds'
    → mount_over v m d
      ≡ mounted
          (record v { dirents = record v.dirents { children = assign v.dirents.children p ds' } })
unfolding mount_over
mount_over-mounted v m d p name ds' up e r = rw (mount_over, up, e, r) refl

-- A device whose root entry `m` is new is mounted over a child of the root. The name has no slash
-- and fewer than 255 characters, and the child knows its parent. Then the mount does not fail; the
-- name leads to the device's root, every other name of the root to what it led to before, and the
-- children of no other entry change.
pub mount_device-Mounts :
    (v : Vfs) (c : ℕ) (cs : List ℕ) (m d : ℕ)
    → split b'/' (c ∷ cs) ≡ (c ∷ cs) ∷ []
    → Short (c ∷ cs)
    → Absent m (v.dirents.children v.root_dirent)
    → get_child v.dirents v.root_dirent (c ∷ cs) ≡ some d
    → v.dirents.parent d ≡ some v.root_dirent
    → (v' : Vfs) × (mount_device (b'/' ∷ c ∷ cs) m v ≡ mounted v') × Mounts v (c ∷ cs) m v'
unfolding mount_device is_root_path get_child
mount_device-Mounts v c cs m d whole short absent e up =
    let name : List ℕ = c ∷ cs in
    let ds : Dirents = v.dirents in
    let ds1 : Dirents = with_ident ds m (b'/' ∷ name) in
    let ds2 : Dirents = with_ident ds1 m name in
    let other1 : (i : ℕ) → i ≢ m → ds1.ident i ≡ ds.ident i =
      with_ident-others ds m (b'/' ∷ name) in
    let other2 : (i : ℕ) → i ≢ m → ds2.ident i ≡ ds.ident i =
      λ i n. with_ident-others ds1 m name i n ∙ other1 i n in
    let at_m : ds2.ident m ≡ name = with_ident-here ds1 m name in
    let kids = ds.children v.root_dirent in
    let (ds', r, f, o) =
      replace_child-find_child ds.ident ds2.ident m other2 name at_m kids d absent e in
    let (d_name, d_new) = find_child-name ds.ident name m kids d absent e in
    let v1 : Vfs = record v { dirents = ds1 } in
    let found1 : resolve_path v1 (b'/' ∷ name) ≡ found d =
      resolve_path-walk v1 name (rw whole (short, tt))
      ∙ (ap (walk ds1 v.root_dirent) whole
          ∙ walk-one ds1 v.root_dirent d name
              (find_child-renamed ds.ident ds1.ident m other1 name kids absent ∙ e)) in
    let here : (v.root_dirent == v.root_dirent) ≡ true =
      (==_iff v.root_dirent v.root_dirent).1 refl in
    (
      record {
        dirents = record ds2 { children = assign ds.children v.root_dirent ds' };
        root_dirent = v.root_dirent;
      },
      rw (mount_device, found1)
          (mount_over-mounted (record v { dirents = ds2 }) m d v.root_dirent name ds' up
            (other2 d d_new ∙ d_name) r),
      record {
        root = refl;
        there = rw here f;
        others = λ other n. rw here (o other n);
        children = λ i n. let x : (i == v.root_dirent) ≡ false = ground arith in rw x refl;
        parent = λ i. refl;
        ident = other2;
        absent = λ x new a. rw here (replace_child-Absent ds2.ident name m x kids ds' new a r);
      },
    )
