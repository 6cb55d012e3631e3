-- ===== src/Fs/Booting/Beside.antt =====
-- Devices below one name of the root, and the rest of the tree beside them: what mount_device of
-- kernel/fs/vfs.cpp leaves, and make_file of includes/kernel/fs/udev.h keeps.
use weird_os.Base.{
  ℕ, ◌+◌, ◌^◌, ◌≤◌, ◌<◌, ◌≡◌, ◌≢◌, refl, ◌∙◌, arith, true, false, ◌==◌, some, List, Bool-cases, inl,
  inr,
}
use weird_os.Fs.Booting.{vga_name, init_vga}
use weird_os.Fs.Initrd.{add_child}
use weird_os.Fs.Mount.{Mounts}
use weird_os.Fs.Mount.Children.{Absent, find_child-renamed}
use weird_os.Fs.Udev.{Udev, vga_dev}
use weird_os.Fs.Udev.Laws.{IsUdev, make_file-Adds}
use weird_os.Fs.Vfs.{Dirents, Vfs, same_name, get_child}
use mathlib.Core.Option.{or_else}

-- In `v` the name leads to `m`, other names of the root lead where they led in `ds`, and the entries
-- between `low` and `high` are as in `ds`.
pub record Beside (ds : Dirents) (root : ℕ) (name : List ℕ) (m low high : ℕ) (v : Vfs)
    : Type 0 where
  pub at_root : v.root_dirent ≡ root
  pub there : get_child v.dirents root name ≡ some m
  pub others :
      (other : List ℕ)
      → same_name other name ≡ false
      → get_child v.dirents root other ≡ get_child ds root other
  pub children : (d : ℕ) → low ≤ d → d < high → v.dirents.children d ≡ ds.children d
  pub parent : (d : ℕ) → low ≤ d → d < high → v.dirents.parent d ≡ ds.parent d
  pub ident : (d : ℕ) → low ≤ d → d < high → v.dirents.ident d ≡ ds.ident d

pub Mounts-Beside :
    (v v' : Vfs) (name : List ℕ) (m low high : ℕ)
    → Mounts v name m v'
    → v.root_dirent < low
    → high ≤ m
    → Beside v.dirents v.root_dirent name m low high v'
Mounts-Beside v v' name m low high h below above = record {
  at_root = h.root;
  there = h.there;
  others = h.others;
  children = λ d l u. h.children d (λ e. omega arith);
  parent = λ d l u. h.parent d;
  ident = λ d l u. h.ident d (λ e. omega arith);
}

vga_named : same_name vga_name vga_name ≡ true
unfolding same_name
vga_named = refl

-- The devices, with the entries of the mounted file system.
abbrev pub mounted_devices : Udev → Vfs → Udev
mounted_devices u v = record u { dirents = v.dirents }

module _ (u : Udev) (v : Vfs) (root : ℕ) where
  -- Only the new entry gets a name, and only it and the devices' root get children.
  init_vga-ident : (d : ℕ) → d ≢ u.next → (init_vga u v).1.dirents.ident d ≡ v.dirents.ident d
  unfolding init_vga add_child
  init_vga-ident d new =
      let n : (d == u.next) ≡ false = ground arith in
      elim (Bool-cases (u.root_dirent == 0)) [
        | inl none_above ↦ rw (none_above, n) refl
        | inr above ↦ rw (above, n) refl
      ]

  init_vga-parent : (d : ℕ) → d ≢ u.next → (init_vga u v).1.dirents.parent d ≡ v.dirents.parent d
  unfolding init_vga add_child
  init_vga-parent d new =
      let n : (d == u.next) ≡ false = ground arith in
      elim (Bool-cases (u.root_dirent == 0)) [
        | inl none_above ↦ rw (none_above, n) refl
        | inr above ↦ rw (above, n) refl
      ]

  init_vga-children :
      (d : ℕ)
      → d ≢ u.next
      → d ≢ u.root_dirent
      → (init_vga u v).1.dirents.children d ≡ v.dirents.children d
  unfolding init_vga add_child
  init_vga-children d new other =
      let n : (d == u.next) ≡ false = ground arith in
      let r : (d == u.root_dirent) ≡ false = ground arith in
      elim (Bool-cases (u.root_dirent == 0)) [
        | inl none_above ↦ rw (none_above, n) refl
        | inr above ↦ rw (above, r, n) refl
      ]

  init_vga-child :
      (name : List ℕ)
      → root ≢ u.next
      → root ≢ u.root_dirent
      → Absent u.next (v.dirents.children root)
      → get_child (init_vga u v).1.dirents root name ≡ get_child v.dirents root name
  unfolding get_child
  init_vga-child name new other absent = rw (init_vga-children root new other) (
      find_child-renamed v.dirents.ident (init_vga u v).1.dirents.ident u.next init_vga-ident name
        (v.dirents.children root) absent)

  -- init_vga keeps what lies beside the devices, and its entry is found below their root, unless an
  -- older one has its name.
  pub init_vga-Beside :
      {ds : Dirents} {name : List ℕ} (low high : ℕ)
      → Beside ds root name u.root_dirent low high v
      → root < low
      → root < u.root_dirent
      → high ≤ u.root_dirent
      → Absent u.next (v.dirents.children root)
      → IsUdev (mounted_devices u v)
      → u.inode_counter + 1 < 2 ^ 32
      → Beside ds root name u.root_dirent low high (init_vga u v).1
        × (get_child (init_vga u v).1.dirents u.root_dirent vga_name
            ≡ or_else (get_child v.dirents u.root_dirent vga_name) (some u.next))
  unfolding init_vga
  init_vga-Beside low high h below apart above absent ok counted =
      let old = ok.root_old in
      let (_, _, made) =
        make_file-Adds vga_name vga_dev 0x21ff (mounted_devices u v) 0 vga_name ok counted in
      (
        record {
          at_root = h.at_root;
          there = init_vga-child _ (λ e. omega arith) (λ e. omega arith) absent ∙ h.there;
          others = λ other n.
              init_vga-child other (λ e. omega arith) (λ e. omega arith) absent ∙ h.others other n;
          children =
              λ d l r. init_vga-children d (λ e. omega arith) (λ e. omega arith) ∙ h.children d l r;
          parent = λ d l r. init_vga-parent d (λ e. omega arith) ∙ h.parent d l r;
          ident = λ d l r. init_vga-ident d (λ e. omega arith) ∙ h.ident d l r;
        },
        made ∙ rw vga_named refl,
      )
