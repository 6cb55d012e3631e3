-- ===== src/Fs/Booting/Mounting.antt =====
-- The two mounts of init_fs of kernel/fs/fs.cpp, on the entries of a packed tree.
use weird_os.Base.{
  ℕ, suc, ◌≤◌, ◌<◌, ◌≡◌, refl, sym, ◌∙◌, subst, arith, false, ◌==◌, none, some, List, [], ◌∷◌,
}
use weird_os.Fs.Booting.{dev_name, vga_name}
use weird_os.Fs.Booting.Beside.{Beside, Mounts-Beside}
use weird_os.Fs.Mount.Children.{Absent}
use weird_os.Fs.Booting.Frames.{Shows-Absent, find_child-parent}
use weird_os.Fs.Initrd.{Cache}
use weird_os.Fs.Initrd.Lookup.{FoundAs, child-FoundAs}
use weird_os.Makefs.Names.{a_directory, entry_of, reordered, reordered?}
use weird_os.Fs.Initrd.Shows.{Shows, Shows-keep, Keeps}
use weird_os.Fs.Mount.{Mounts, mount_device-Mounts}
use weird_os.Fs.Udev.{UdevInode, Udev, udev}
use weird_os.Fs.Udev.Laws.{Devices, udev-Devices}
use weird_os.Fs.Vfs.{
  Dirents, Vfs, assign, same_name, find_child, get_child, is_root_path, mounted, mount_device,
}
use weird_os.Makefs.{Files, end}
use weird_os.Makefs.Encodes.{visited}
use weird_os.Util.Text.{split, split_loop, substr}

abbrev pub tty0_name : List ℕ
tty0_name = b't' ∷ b't' ∷ b'y' ∷ b'0' ∷ []

-- The first mount, which names the root and makes it an orphan.
abbrev pub first_mount : Dirents → Vfs
first_mount ds = record {
  dirents = record {
    ident = assign ds.ident 1 (b'/' ∷ []);
    parent = assign ds.parent 1 none;
    children = ds.children;
  };
  root_dirent = 1;
}

pub first_mounted :
    (ds : Dirents)
    → mount_device (b'/' ∷ []) 1 (record { dirents = ds; root_dirent = 0 })
      ≡ mounted (first_mount ds)
unfolding mount_device is_root_path
first_mounted ds = refl

module _ (all : List ℕ) (c : Cache) (m_inode : ℕ → UdevInode) (files : Files) (old : 2 ≤ c.next)
    (shows : Shows all c 1 2 c.next (c.dirents.children 1) (visited files end)) where
  abbrev pub devices : Udev
  devices = udev c.dirents c.next m_inode

  abbrev pub v0 : Vfs
  v0 = first_mount devices.dirents

  abbrev pub c0 : Cache
  c0 = record c { dirents = v0.dirents }

  pub made : Devices c.dirents c.next m_inode devices
  made = udev-Devices c.dirents c.next m_inode (omega arith)

  kept : Keeps c c0 2 c.next
  kept d l u =
      let other : (d == 1) ≡ false = ground arith in
      record {
        ident = rw other (made.ident d u);
        parent = rw other (made.parent d u);
        children = made.children d u;
        m_inode = refl;
      }

  pub root-Shows : Shows all c0 1 2 c.next (c0.dirents.children 1) (visited files end)
  root-Shows =
      subst (λ ids. Shows all c0 1 2 c.next ids (visited files end))
        (sym (made.children 1 (omega arith)))
        (Shows-keep all 1 (c.dirents.children 1) (visited files end) kept (omega arith)
          (omega arith) shows)

  pub root_child :
      (name : List ℕ) (d : ℕ)
      → get_child v0.dirents 1 name ≡ some d
      → (c0.dirents.parent d ≡ some 1) × (2 ≤ d) × (d < c.next)
  unfolding get_child
  root_child name d there =
      find_child-parent all c0 1 2 c.next (c0.dirents.children 1) (visited files end) name d
        root-Shows there

  -- The second mount.
  pub dev-Mounts :
      (children : Files)
      → entry_of files dev_name ≡ some (a_directory children)
      → (v : Vfs) × (mount_device (b'/' ∷ dev_name) c.next v0 ≡ mounted v)
        × Mounts v0 dev_name c.next v
  unfolding split split_loop substr get_child
  dev-Mounts children e =
      let (d, there, _) : FoundAs all c0 2 c.next (get_child v0.dirents 1 dev_name)
          (some (reordered (a_directory children))) =
        subst (λ o. FoundAs all c0 2 c.next (get_child v0.dirents 1 dev_name) (reordered? o)) e
          (child-FoundAs all c0 2 c.next 1 files dev_name root-Shows) in
      let (up, _, _) = root_child dev_name d there in
      mount_device-Mounts v0 b'd' (b'e' ∷ b'v' ∷ []) c.next d refl (omega arith)
        (Shows-Absent all c0 1 2 c.next c.next (c0.dirents.children 1) (visited files end)
          (omega arith) root-Shows)
        there up

  module _ (v : Vfs) (mounts : Mounts v0 dev_name c.next v) where
    pub mounted-Beside : Beside v0.dirents 1 dev_name c.next 2 c.next v
    mounted-Beside = Mounts-Beside v0 v dev_name c.next 2 c.next mounts (omega arith) (omega arith)

    pub below_dev : v.dirents.children c.next ≡ suc c.next ∷ []
    below_dev = mounts.children c.next (λ e. omega arith) ∙ made.below_root

    pub named_tty0 : v.dirents.ident (suc c.next) ≡ tty0_name
    named_tty0 =
        let other : (suc c.next == 1) ≡ false = ground arith in
        mounts.ident (suc c.next) (λ e. omega arith) ∙ rw other made.tty0_name

    pub tty0_below : get_child v.dirents c.next tty0_name ≡ some (suc c.next)
    unfolding get_child find_child same_name
    tty0_below = rw (below_dev, named_tty0) refl

    pub no_vga_below : get_child v.dirents c.next vga_name ≡ none
    unfolding get_child find_child same_name
    no_vga_below = rw (below_dev, named_tty0) refl

    pub no_new_child : (n : ℕ) → c.next < n → Absent n (v.dirents.children 1)
    no_new_child n above =
        mounts.absent n (λ e. omega arith)
          (Shows-Absent all c0 1 2 c.next n (c0.dirents.children 1) (visited files end)
            (omega arith) root-Shows)
