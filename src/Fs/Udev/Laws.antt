-- ===== src/Fs/Udev/Laws.antt =====
-- What make_file and create_tty of kernel/fs/udev.cpp leave.
use weird_os.Base.{
  ℕ, zero, suc, ◌+◌, ◌^◌, ◌≤◌, ◌<◌, ◌≡◌, refl, ◌∙◌, arith, true, false, ◌==◌, ==_iff, none, some,
  List, [], ◌∷◌, ◌++◌, All, Bool-cases, Option-cases, inl, inr, if◌then◌else◌,
}
use weird_os.Fs.Initrd.{size_key, add_child, hash_size, until_zero}
use weird_os.Fs.Udev.{
  Device, fifo, directory_like, UdevInode, Udev, get_inode, make_file, create_tty, digits_of,
  new_dirent, udev,
}
use weird_os.Clib.Itoa.{itoa}
use weird_os.Fs.Vfs.{Dirents, assign, same_name, find_child, get_child}
use weird_os.Util.HashMap.{set, get, get-set, find, hash, hash_loop}
use mathlib.Core.Option.{or_else}

-- The root is an entry, its children are entries, and no inode has a number still to be given.
pub record IsUdev (u : Udev) : Type 0 where
  pub root_pos : zero < u.root_dirent
  pub root_old : u.root_dirent < u.next
  pub children_old : All (λ d. d < u.next) (u.dirents.children u.root_dirent)
  pub numbers : (i : ℕ) → u.inode_counter ≤ i → get_inode u i ≡ none

All-append : (n : ℕ) (xs : List ℕ) → All (λ d. d < n) xs → All (λ d. d < suc n) (xs ++ (n ∷ []))
All-append n [] h = (omega arith, tt)
All-append n (y ∷ xs) (q, h) = (omega arith, All-append n xs h)

-- A child behind the others, which are older.
find_child-last :
    (ident : ℕ → List ℕ) (n : ℕ) (name other : List ℕ) (ds : List ℕ)
    → All (λ d. d < n) ds
    → find_child (assign ident n name) other (ds ++ (n ∷ []))
      ≡ or_else (find_child ident other ds) (if same_name other name then some n else none)
unfolding find_child or_else
find_child-last ident n name other [] h =
    let here : (n == n) ≡ true = (==_iff n n).1 refl in rw here refl
find_child-last ident n name other (d ∷ ds) (older, h) =
    let old : (d == n) ≡ false = ground arith in
    elim (Bool-cases (same_name other (ident d))) [
      | inl same ↦ rw (old, same) refl
      | inr differ ↦ rw (old, differ) (find_child-last ident n name other ds h)
    ]

module _ (name : List ℕ) (device : Device) (mode : ℕ) (u : Udev) (ok : IsUdev u)
    (counted : u.inode_counter + 1 < 2 ^ 32) where
  -- The new inode is found under its number, and the others under theirs.
  make_file-get_inode :
      (j : ℕ)
      → get_inode (make_file name device mode u).1 j
        ≡ (if j == u.inode_counter then some (make_file name device mode u).0 else get_inode u j)
  unfolding make_file get_inode or_else
  make_file-get_inode j =
      let ino : UdevInode = (make_file name device mode u).0 in
      get-set ⦃key = size_key⦄ u.inode_cache u.inode_counter j ino
      ∙ elim (Bool-cases (j == u.inode_counter)) [
        | inl same ↦
            let at : u.inode_counter ≤ j = ground arith in
            let absent : get ⦃key = size_key⦄ u.inode_cache j ≡ none = ok.numbers j at in
            rw (absent, same) refl
        | inr other ↦ elim (Option-cases (get ⦃key = size_key⦄ u.inode_cache j)) [
          | inl e ↦ rw (get_inode, e, other) refl
          | inr (i, e) ↦ rw (get_inode, e, other) refl
        ]
      ]

  make_file-get_child :
      (other : List ℕ)
      → get_child (make_file name device mode u).1.dirents u.root_dirent other
        ≡ or_else
            (get_child u.dirents u.root_dirent other)
            (if same_name other name then some u.next else none)
  unfolding make_file get_child add_child
  make_file-get_child other =
      let nonzero : (u.root_dirent == 0) ≡ false = let l = ok.root_pos in ground arith in
      let old : (u.root_dirent == u.next) ≡ false = let l = ok.root_old in ground arith in
      let here : (u.root_dirent == u.root_dirent) ≡ true =
        (==_iff u.root_dirent u.root_dirent).1 refl in
      rw (nonzero, here, old)
        (find_child-last u.dirents.ident u.next name other (u.dirents.children u.root_dirent)
          ok.children_old)

  make_file-IsUdev : IsUdev (make_file name device mode u).1
  unfolding make_file add_child
  make_file-IsUdev =
      let nonzero : (u.root_dirent == 0) ≡ false = let l = ok.root_pos in ground arith in
      let old : (u.root_dirent == u.next) ≡ false = let l = ok.root_old in ground arith in
      let here : (u.root_dirent == u.root_dirent) ≡ true =
        (==_iff u.root_dirent u.root_dirent).1 refl in
      record {
        root_pos = ok.root_pos;
        root_old = omega (arith, ok.root_old);
        children_old =
            rw (nonzero, here, old)
              (All-append u.next (u.dirents.children u.root_dirent) ok.children_old);
        numbers = λ i l.
            let other : (i == u.inode_counter) ≡ false = ground arith in
            make_file-get_inode i ∙ rw other (ok.numbers i (omega arith));
      }

-- make_file keeps the invariant. The inode it makes is found under its number and the others under
-- theirs; its entry is found by its name, unless an older one has this name, and the others by
-- theirs.
pub make_file-Adds :
    (name : List ℕ) (device : Device) (mode : ℕ) (u : Udev) (j : ℕ) (other : List ℕ)
    → IsUdev u
    → u.inode_counter + 1 < 2 ^ 32
    → IsUdev (make_file name device mode u).1
      × (get_inode (make_file name device mode u).1 j
          ≡ (if j == u.inode_counter then some (make_file name device mode u).0 else get_inode u j))
      × (get_child (make_file name device mode u).1.dirents u.root_dirent other
          ≡ or_else
              (get_child u.dirents u.root_dirent other)
              (if same_name other name then some u.next else none))
make_file-Adds name device mode u j other ok counted = (
  make_file-IsUdev name device mode u ok counted,
  make_file-get_inode name device mode u ok counted j,
  make_file-get_child name device mode u ok counted other,
)

-- The constructor before it makes the terminal.
abbrev pub bare : Dirents → (next : ℕ) → (m_inode : ℕ → UdevInode) → Udev
bare dirents next m_inode =
    new_dirent [] none (record { device = directory_like; id = 0; mode = 0x41ff })
      (record {
        dirents = dirents;
        next = next;
        m_inode = m_inode;
        inode_cache = λ h. [];
        inode_counter = 1;
        root_dirent = next;
      })

-- What the constructor leaves, among older entries: its root, the terminal below it, and their
-- inodes under the numbers 0 and 1.
pub record Devices (dirents : Dirents) (next : ℕ) (m_inode : ℕ → UdevInode) (u : Udev)
    : Type 0 where
  pub root : u.root_dirent ≡ next
  pub next_free : u.next ≡ suc (suc next)
  pub counter : u.inode_counter ≡ 2
  pub numbers : (i : ℕ) → 2 ≤ i → get_inode u i ≡ none
  pub tty0 : get_child u.dirents next (b't' ∷ b't' ∷ b'y' ∷ b'0' ∷ []) ≡ some (suc next)
  pub below_root : u.dirents.children next ≡ suc next ∷ []
  pub tty0_name : u.dirents.ident (suc next) ≡ b't' ∷ b't' ∷ b'y' ∷ b'0' ∷ []
  pub is_fifo : (u.m_inode (suc next)).device ≡ fifo
  pub root_number : get_inode u 0 ≡ some (record { device = directory_like; id = 0; mode = 0x41ff })
  pub tty0_number : get_inode u 1 ≡ some (u.m_inode (suc next))
  pub ident : (d : ℕ) → d < next → u.dirents.ident d ≡ dirents.ident d
  pub parent : (d : ℕ) → d < next → u.dirents.parent d ≡ dirents.parent d
  pub children : (d : ℕ) → d < next → u.dirents.children d ≡ dirents.children d

get_nothing : (i : ℕ) → get {V = UdevInode} ⦃key = size_key⦄ (λ h. []) i ≡ none
unfolding get find
get_nothing i = refl

get-two :
    (a b : UdevInode) (i : ℕ)
    → 2 ≤ i
    → get ⦃key = size_key⦄ (set ⦃key = size_key⦄ (set ⦃key = size_key⦄ (λ h. []) 1 a) 0 b) i ≡ none
unfolding or_else
get-two a b i l =
    let z : (i == 0) ≡ false = ground arith in
    let o : (i == 1) ≡ false = ground arith in
    rw
      (
        get-set ⦃key = size_key⦄ (set ⦃key = size_key⦄ (λ h. []) 1 a) 0 i b,
        get-set ⦃key = size_key⦄ (λ h. []) 1 i a,
        get_nothing i,
        o,
        z,
      )
      refl

udev-numbers :
    (dirents : Dirents) (next : ℕ) (m_inode : ℕ → UdevInode) (i : ℕ)
    → 2 ≤ i
    → get_inode (udev dirents next m_inode) i ≡ none
unfolding udev create_tty make_file get_inode
udev-numbers dirents next m_inode i l = get-two _ _ i l

module _ (dirents : Dirents) (next : ℕ) (m_inode : ℕ → UdevInode) (pos : zero < next) where
  pub bare-IsUdev : IsUdev (bare dirents next m_inode)
  unfolding get_inode get find
  bare-IsUdev =
      let here : (next == next) ≡ true = (==_iff next next).1 refl in
      record {
        root_pos = pos;
        root_old = omega arith;
        children_old = rw here tt;
        numbers = λ i l. refl;
      }

  pub udev-Devices : Devices dirents next m_inode (udev dirents next m_inode)
  unfolding udev create_tty digits_of itoa make_file add_child get_child find_child same_name
      get_inode get set find hash_size hash hash_loop until_zero
  udev-Devices =
      let here : (next == next) ≡ true = (==_iff next next).1 refl in
      let there : (suc next == suc next) ≡ true = (==_iff (suc next) (suc next)).1 refl in
      let z : (next == 0) ≡ false = ground arith in
      let apart : (next == suc next) ≡ false = ground arith in
      record {
        root = refl;
        next_free = refl;
        counter = refl;
        numbers = udev-numbers dirents next m_inode;
        tty0 = rw (z, here, apart, there) refl;
        below_root = rw (z, here, apart) refl;
        tty0_name = rw (z, there) refl;
        is_fifo = rw there refl;
        root_number = refl;
        tty0_number = rw there refl;
        ident = λ d l.
            let n : (d == next) ≡ false = ground arith in
            let s : (d == suc next) ≡ false = ground arith in rw (z, n, s) refl;
        parent = λ d l.
            let n : (d == next) ≡ false = ground arith in
            let s : (d == suc next) ≡ false = ground arith in rw (z, n, s) refl;
        children = λ d l.
            let n : (d == next) ≡ false = ground arith in
            let s : (d == suc next) ≡ false = ground arith in rw (z, n, s) refl;
      }
