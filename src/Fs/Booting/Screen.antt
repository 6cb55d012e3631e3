-- ===== src/Fs/Booting/Screen.antt =====
-- init_vga of kernel/drivers/vga/vga.cpp behind init_fs of kernel/fs/fs.cpp.
use weird_os.Base.{
  ℕ, suc, ◌≤◌, ◌<◌, ◌≡◌, refl, sym, ap, ◌∙◌, subst, arith, true, false, ◌==◌, ==_iff, some, List,
  [], ◌∷◌, All,
}
use weird_os.Fs.Booting.{dev_name, vga_name, init_vga}
use weird_os.Fs.Booting.Beside.{Beside, mounted_devices, init_vga-Beside}
use weird_os.Fs.Booting.Mounting.{
  devices, v0, c0, root-Shows, root_child, mounted-Beside, below_dev, no_vga_below, no_new_child,
  made,
}
use weird_os.Fs.Initrd.{add_child, Cache}
use weird_os.Fs.Initrd.Lookup.{FoundAs, child-FoundAs}
use weird_os.Fs.Initrd.Shows.{Shows, Serves}
use weird_os.Fs.Mount.{Mounts}
use weird_os.Fs.Udev.{UdevInode, get_inode, vga_dev}
use weird_os.Fs.Udev.Laws.{IsUdev}
use weird_os.Fs.Vfs.{Vfs, same_name, get_child}
use weird_os.Makefs.{Files, end}
use weird_os.Makefs.Encodes.{visited}
use weird_os.Makefs.Names.{a_file, entry_of, reordered, reordered?}
use mathlib.Core.Option.{or_else}

module _ (all : List ℕ) (c : Cache) (m_inode : ℕ → UdevInode) (files : Files) (old : 2 ≤ c.next)
    (shows : Shows all c 1 2 c.next (c.dirents.children 1) (visited files end)) (v : Vfs)
    (mounts : Mounts (v0 all c m_inode files old shows) dev_name c.next v) where
  mounted-IsUdev : IsUdev (mounted_devices (devices all c m_inode files old shows) v)
  unfolding get_inode
  mounted-IsUdev =
      let u = devices all c m_inode files old shows in
      let h = made all c m_inode files old shows in
      let root = h.root in
      let kids : v.dirents.children u.root_dirent ≡ suc c.next ∷ [] =
        ap v.dirents.children root ∙ below_dev all c m_inode files old shows v mounts in
      let next = h.next_free in
      let counter = h.counter in
      record {
        root_pos = omega arith;
        root_old = omega arith;
        children_old = subst (λ kids. All (λ d. d < u.next) kids) (sym kids) (omega arith, tt);
        numbers = λ i l. h.numbers i (omega arith);
      }

  -- The screen is a device below /dev, and what lies beside /dev is as before.
  pub screen_found :
      let u = devices all c m_inode files old shows in
      Beside (v0 all c m_inode files old shows).dirents 1 dev_name c.next 2 c.next (init_vga u v).1
      × (get_child (init_vga u v).1.dirents c.next vga_name ≡ some (suc (suc c.next)))
      × (((init_vga u v).0.m_inode (suc (suc c.next))).device ≡ vga_dev)
  unfolding init_vga add_child or_else
  screen_found =
      let u = devices all c m_inode files old shows in
      let h = made all c m_inode files old shows in
      let root = h.root in
      let next = h.next_free in
      let counter = h.counter in
      let before = mounted-Beside all c m_inode files old shows v mounts in
      let nothing = no_vga_below all c m_inode files old shows v mounts in
      let absent = no_new_child all c m_inode files old shows v mounts u.next (omega arith) in
      let ds = (v0 all c m_inode files old shows).dirents in
      let (beside, there) =
        init_vga-Beside u v 1 2 c.next
          (subst (λ m. Beside ds 1 dev_name m 2 c.next v) (sym root) before) (omega arith)
          (omega arith) (omega arith) absent mounted-IsUdev (omega arith) in
      let here : (suc (suc c.next) == u.next) ≡ true =
        (==_iff (suc (suc c.next)) u.next).1 (sym next) in
      (
        subst (λ m. Beside ds 1 dev_name m 2 c.next (init_vga u v).1) root beside,
        ap (λ r. get_child (init_vga u v).1.dirents r vga_name) (sym root)
            ∙ (there
                ∙ (ap (λ r. or_else (get_child v.dirents r vga_name) (some u.next)) root
                    ∙ (rw nothing refl ∙ ap some next))),
        rw here refl,
      )

  -- A file of the host's top directory is found at the root.
  pub root_file :
      (w : Vfs) (name content : List ℕ)
      → Beside (v0 all c m_inode files old shows).dirents 1 dev_name c.next 2 c.next w
      → entry_of files name ≡ some (a_file content)
      → same_name name dev_name ≡ false
      → (d : ℕ) × (get_child w.dirents 1 name ≡ some d)
        × (d < c.next)
        × Serves all (c.m_inode d) content
  root_file w name content beside e other =
      let (d, there, (_, serves)) : FoundAs all (c0 all c m_inode files old shows) 2 c.next
          (get_child (v0 all c m_inode files old shows).dirents 1 name)
          (some (reordered (a_file content))) =
        subst
          (λ o.
            FoundAs all (c0 all c m_inode files old shows) 2 c.next
              (get_child (v0 all c m_inode files old shows).dirents 1 name) (reordered? o))
          e
          (child-FoundAs all (c0 all c m_inode files old shows) 2 c.next 1 files name
            (root-Shows all c m_inode files old shows)) in
      let (_, _, young) = root_child all c m_inode files old shows name d there in
      (d, beside.others name other ∙ there, young, serves)
