-- ===== src/Fs/Initrd.antt =====
-- The file system of the initial ramdisk: kernel/fs/initrd.cpp, includes/kernel/fs/initrd.h and
-- size_t keys of includes/util/hashmap.h. A dirent is its number, and 0 is the null pointer. A
-- read of the header outside its arrays, or of the image outside its bytes, is `none`.
pub mod Shows
pub mod Caches
pub mod Trees
pub mod Lookup
pub mod Booted
pub mod Tests
use weird_os.Base.{
  ℕ, zero, suc, ◌+◌, ◌/◌, ◌%◌, ◌^◌, Bool, true, false, ◌||◌, ◌==◌, ==_iff, leb, ltb, if◌then◌else◌,
  Option, none, some, List, [], ◌∷◌, ◌++◌, length, take, drop,
}
use weird_os.Fs.Image.{InitrdDirent, InitrdInode, InitrdHeader, Image, is_dir}
use weird_os.Fs.Vfs.{Dirents, assign}
use weird_os.Util.HashMap.{Key, get, set, empty, hash}

-- The class of an inode: `rdfs_inode` has the index of its bytes.
pub data Class : Type 0 where
  directory_like : Class
  rdfs_inode : (start : ℕ) → Class

pub record Inode : Type 0 where
  pub class : Class
  pub id : ℕ
  pub mode : ℕ
  pub uid : ℕ
  pub gid : ℕ
  pub size : ℕ

-- The entries and their inodes, and the number of the next entry.
pub record Cache : Type 0 where
  pub dirents : Dirents
  pub inode_id : ℕ → ℕ
  pub m_inode : ℕ → Inode
  pub inode_cache : ℕ → List (ℕ × Inode)
  pub next : ℕ

-- A C string ends at the first 0.
unfoldable pub until_zero : List ℕ → List ℕ
until_zero [] = []
until_zero (c ∷ cs) = if c == 0 then [] else c ∷ until_zero cs

-- The four bytes of a size_t, as a string.
unfoldable pub hash_size : ℕ → ℕ
unfolding hash until_zero
hash_size i =
    hash (until_zero (i % 2 ^ 8 ∷ i / 2 ^ 8 % 2 ^ 8 ∷ i / 2 ^ 16 % 2 ^ 8 ∷ i / 2 ^ 24 % 2 ^ 8 ∷ []))

abbrev pub size_key : Key ℕ
size_key = record { equal = λ a b. a == b; equal_iff = ==_iff; hash_of = hash_size }

unfoldable pub get_inode : Cache → (inode : ℕ) → Option Inode
unfolding get
get_inode c inode = get ⦃key = size_key⦄ c.inode_cache inode

unfoldable pub make_inode : InitrdInode → Inode
unfolding is_dir
make_inode i = record {
  class = if is_dir i.mode then directory_like else rdfs_inode i.data_offset;
  id = i.id;
  mode = i.mode;
  uid = i.uid;
  gid = i.gid;
  size = i.size;
}

-- `parent->add_child(dir)`, unless `parent` is null.
unfoldable pub add_child : (parent dir : ℕ) → Dirents → Dirents
add_child parent dir ds =
    if parent == 0
    then ds
    else record ds { children = assign ds.children parent (ds.children parent ++ (dir ∷ [])) }

-- initrd::cache before its recursive calls: the new entry is `c.next`.
unfoldable pub cache_one : InitrdHeader → (parent : ℕ) → InitrdDirent → Cache → Cache
unfolding make_inode add_child set
cache_one header parent rd_dirent c =
    let dir = c.next in
    let inode : Inode = make_inode (header.inodes rd_dirent.inode_id) in
    record {
      dirents = add_child parent dir (record {
        ident = assign c.dirents.ident dir rd_dirent.name;
        parent = assign c.dirents.parent dir (some parent);
        children = assign c.dirents.children dir [];
      });
      inode_id = assign c.inode_id dir inode.id;
      m_inode = assign c.m_inode dir inode;
      inode_cache = set ⦃key = size_key⦄ c.inode_cache inode.id inode;
      next = suc dir;
    }

-- A recursive call, unless the index is 0.
unfoldable pub when_linked : (ℕ → Cache → Option (ℕ × Cache)) → (j : ℕ) → Cache → Option Cache
when_linked cache zero c = some c
when_linked cache (suc j) c = elim (cache (suc j) c) [ none ↦ none | some (dir, c') ↦ some c' ]

-- initrd::cache of entry `j`. The links of a header may form a cycle, which the fuel ends.
unfoldable pub cache : InitrdHeader → (fuel parent j : ℕ) → Cache → Option (ℕ × Cache)
unfolding cache_one when_linked
cache header zero parent j c = none
cache header (suc fuel) parent j c =
    let rd_dirent = header.dirents j in
    if leb 0xff j || leb 0xff rd_dirent.inode_id
    then none
    else elim (when_linked (cache header fuel parent) rd_dirent.sibling
        (cache_one header parent rd_dirent c)) [
          | none ↦ none
          | some c' ↦ elim (when_linked (cache header fuel c.next) rd_dirent.first_child c') [
            | none ↦ none
            | some c'' ↦ some (c.next, c'')
          ]
        ]

-- No entry but null.
abbrev pub empty_cache : Cache
empty_cache = record {
  dirents = record { ident = λ d. []; parent = λ d. none; children = λ d. [] };
  inode_id = λ d. 0;
  m_inode = λ d. record { class = directory_like; id = 0; mode = 0; uid = 0; gid = 0; size = 0 };
  inode_cache = λ h. [];
  next = 1;
}

-- The constructor: root_dirent, and what is cached.
unfoldable pub initrd : (fuel : ℕ) → Image → Option (ℕ × Cache)
unfolding cache
initrd fuel image = cache image.header fuel 0 0 empty_cache

-- rdfs_inode::read and inode::read: the result, and the bytes written to `buf`.
unfoldable pub read : Image → Inode → (nbyte offset : ℕ) → Option (ℕ × List ℕ)
read image i nbyte offset = elim i.class [
  | directory_like ↦ some (0, [])
  | rdfs_inode start ↦
      let actual = if ltb i.size nbyte then i.size else nbyte in
      if ltb (length image.file_data) (start + offset + actual)
      then none
      else some (actual, take actual (drop (start + offset) image.file_data))
]
