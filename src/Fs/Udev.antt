-- ===== src/Fs/Udev.antt =====
-- The file system of devices: kernel/fs/udev.cpp and includes/kernel/fs/udev.h.
pub mod Laws
pub mod Tests
use weird_os.Base.{ℕ, suc, ◌+◌, ◌%◌, ◌^◌, Option, none, some, List, [], ◌∷◌, ◌++◌}
use weird_os.Clib.Itoa.{itoa}
use weird_os.Fs.Initrd.{size_key, add_child}
use weird_os.Fs.Vfs.{Dirents, assign}
use weird_os.Util.HashMap.{get, set}

-- The class of an inode. make_file may be called with any; the kernel makes pipes
-- and the text screen.
pub data Device : Type 0 where
  directory_like : Device
  fifo : Device
  vga_dev : Device

pub record UdevInode : Type 0 where
  pub device : Device
  pub id : ℕ
  pub mode : ℕ

-- The entries and their inodes, the number of the next entry, and the members of udev.
pub record Udev : Type 0 where
  pub dirents : Dirents
  pub next : ℕ
  pub m_inode : ℕ → UdevInode
  pub inode_cache : ℕ → List (ℕ × UdevInode)
  pub inode_counter : ℕ
  pub root_dirent : ℕ

unfoldable pub get_inode : Udev → (inode : ℕ) → Option UdevInode
unfolding get
get_inode u inode = get ⦃key = size_key⦄ u.inode_cache inode

-- make_rc<dirent>, with the inode that is made for it.
abbrev pub new_dirent : (name : List ℕ) (parent : Option ℕ) (inode : UdevInode) → Udev → Udev
new_dirent name parent inode u = record u {
  dirents = record {
    ident = assign u.dirents.ident u.next name;
    parent = assign u.dirents.parent u.next parent;
    children = assign u.dirents.children u.next [];
  };
  next = suc u.next;
  m_inode = assign u.m_inode u.next inode;
}

-- make_file: get_inode_id is called for the new inode. create_tty does the same with a pipe.
unfoldable pub make_file : (name : List ℕ) → Device → (mode : ℕ) → Udev → UdevInode × Udev
unfolding set add_child
make_file name device mode u =
    let ino : UdevInode = record { device = device; id = u.inode_counter; mode = mode } in
    let u' = new_dirent name (some u.root_dirent) ino u in
    (
      ino,
      record u' {
        dirents = add_child u.root_dirent u.next u'.dirents;
        inode_cache = set ⦃key = size_key⦄ u.inode_cache ino.id ino;
        inode_counter = (u.inode_counter + 1) % 2 ^ 32;
      },
    )

-- S_IRWXO | S_IRWXG | S_IRWXU
abbrev pub all_modes : ℕ
all_modes = 0x1ff

-- A word has 32 digits at most, so that the fuel is enough.
unfoldable pub digits_of : (num : ℕ) → List ℕ
unfolding itoa
digits_of num = elim (itoa 33 num 10) [ none ↦ [] | some digits ↦ digits ]

unfoldable pub create_tty : (num : ℕ) → Udev → UdevInode × Udev
unfolding make_file digits_of
create_tty num u = make_file (b't' ∷ b't' ∷ b'y' ∷ digits_of num) fifo all_modes u

-- The constructor, among entries that are there already, of which `next` is the first free number.
unfoldable pub udev : Dirents → (next : ℕ) → (m_inode : ℕ → UdevInode) → Udev
unfolding create_tty set
udev dirents next m_inode =
    let root_inode : UdevInode = record { device = directory_like; id = 0; mode = 0x41ff } in
    let u = new_dirent [] none root_inode (record {
      dirents = dirents;
      next = next;
      m_inode = m_inode;
      inode_cache = λ h. [];
      inode_counter = 1;
      root_dirent = next;
    }) in
    let (tty0, u') = create_tty 0 u in
    record u' { inode_cache = set ⦃key = size_key⦄ u'.inode_cache root_inode.id root_inode }
