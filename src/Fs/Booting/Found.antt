-- ===== src/Fs/Booting/Found.antt =====
-- Paths behind the mounts of init_fs of kernel/fs/fs.cpp: below /dev, and anywhere else.
use weird_os.Base.{
  ℕ, ◌≤◌, ◌≡◌, refl, sym, ap, ◌∙◌, subst, arith, false, none, some, List, [], ◌∷◌, Option-cases,
  inl, inr,
}
use weird_os.Fs.Booting.{dev_name}
use weird_os.Fs.Booting.Beside.{Beside}
use weird_os.Fs.Booting.Frames.{Shown-keep}
use weird_os.Fs.Initrd.{Cache}
use weird_os.Fs.Initrd.Lookup.{
  FoundAs, Outcome, child-FoundAs, walk-Outcome, walk-child, walk-no_child,
}
use weird_os.Makefs.Names.{
  a_directory, entry_of, lookup, reordered, reordered?, lookup-none, lookup-some,
}
use weird_os.Fs.Initrd.Shows.{Shows, Keeps}
use weird_os.Fs.Resolve.{walk, Short, resolve_path-walk}
use weird_os.Fs.Udev.{UdevInode}
use weird_os.Fs.Vfs.{Vfs, same_name, get_child, found, resolve_path}
use weird_os.Makefs.{Files, end}
use weird_os.Makefs.Encodes.{visited}
use weird_os.Util.Text.{split}
use weird_os.Fs.Booting.Mounting.{v0, c0, root-Shows, root_child}

module _ (all : List ℕ) (c : Cache) (m_inode : ℕ → UdevInode) (files : Files) (old : 2 ≤ c.next)
    (shows : Shows all c 1 2 c.next (c.dirents.children 1) (visited files end)) where
  module _ (v : Vfs)
      (beside : Beside
        (v0 all c m_inode files old shows).dirents
        1
        dev_name
        c.next
        2
        c.next
        v) where
    -- A device below the devices' root is found below /dev.
    pub device_found :
        (path name : List ℕ) (d : ℕ)
        → split b'/' path ≡ dev_name ∷ name ∷ []
        → Short name
        → get_child v.dirents c.next name ≡ some d
        → resolve_path v (b'/' ∷ path) ≡ found d
    unfolding walk
    device_found path name d cut short below =
        resolve_path-walk v path (rw cut (omega arith, (short, tt)))
        ∙ (ap (λ r. walk v.dirents r (split b'/' path)) beside.at_root
            ∙ (ap (walk v.dirents 1) cut
                ∙ (walk-child all (record c { dirents = v.dirents }) 2 c.next 1 c.next dev_name
                      (name ∷ []) beside.there
                    ∙ walk-child all (record c { dirents = v.dirents }) 2 c.next c.next d name []
                        below)))

    abbrev c1 : Cache
    c1 = record c { dirents = v.dirents }

    kept1 : Keeps (c0 all c m_inode files old shows) c1 2 c.next
    kept1 d l u = record {
      ident = beside.ident d l u;
      parent = beside.parent d l u;
      children = beside.children d l u;
      m_inode = refl;
    }

    -- Any other name of the root leads into the initial ramdisk.
    pub others_Outcome :
        (name : List ℕ) (names : List (List ℕ))
        → same_name name dev_name ≡ false
        → Outcome all c1 2 c.next
            (walk v.dirents 1 (name ∷ names))
            (lookup (a_directory files) (name ∷ names))
    others_Outcome name names other =
        let same : get_child v.dirents 1 name
            ≡ get_child (v0 all c m_inode files old shows).dirents 1 name =
          beside.others name other in
        let child =
          child-FoundAs all (c0 all c m_inode files old shows) 2 c.next 1 files name
            (root-Shows all c m_inode files old shows) in
        elim (Option-cases (entry_of files name)) [
          | inl e ↦
              let nowhere : get_child (v0 all c m_inode files old shows).dirents 1 name ≡ none =
                subst
                  (λ o.
                    FoundAs all (c0 all c m_inode files old shows) 2 c.next
                      (get_child (v0 all c m_inode files old shows).dirents 1 name) (reordered? o))
                  e child in
              subst (Outcome all c1 2 c.next (walk v.dirents 1 (name ∷ names)))
                (sym (lookup-none files name names e))
                (walk-no_child all c1 2 c.next 1 name names (same ∙ nowhere))
          | inr (entry, e) ↦
              let (d, there, shown) : FoundAs all (c0 all c m_inode files old shows) 2 c.next
                  (get_child (v0 all c m_inode files old shows).dirents 1 name)
                  (some (reordered entry)) =
                subst
                  (λ o.
                    FoundAs all (c0 all c m_inode files old shows) 2 c.next
                      (get_child (v0 all c m_inode files old shows).dirents 1 name) (reordered? o))
                  e child in
              let (_, lo, hi) = root_child all c m_inode files old shows name d there in
              subst (Outcome all c1 2 c.next (walk v.dirents 1 (name ∷ names)))
                (sym (lookup-some files name names entry e))
                (subst (λ r. Outcome all c1 2 c.next r (lookup entry names))
                  (sym (walk-child all c1 2 c.next 1 d name names (same ∙ there)))
                  (walk-Outcome all c1 2 c.next names entry d (
                    Shown-keep all {c = c0 all c m_inode files old shows} {c' = c1} 2 c.next d
                      (reordered entry) kept1 lo hi shown)))
        ]
