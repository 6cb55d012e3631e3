-- ===== src/Makefs.antt =====
-- The tool that writes the initial ramdisk: scripts/makefs.c. What the host's file system returns
-- (readdir, fstat, read) is a tree. `usable` gives the bytes of the area that malloc returns for a
-- size; malloc and realloc do not fail. A write outside the arrays of the header, outside the area for
-- a path or outside the area for the data is `none`.
pub mod Encodes
pub mod Names
pub mod Entries
pub mod Traverse
pub mod Tree
pub mod Tests
use weird_os.Base.{
  ℕ, ◌+◌, ◌%◌, ◌^◌, Bool, true, false, ◌||◌, ◌==◌, leb, ltb, if◌then◌else◌, Option, none, some,
  List, [], ◌∷◌, ◌++◌, length,
}
use weird_os.Fs.Image.{InitrdDirent, InitrdInode, InitrdHeader, Image}
use weird_os.Fs.Vfs.{assign, same_name}

pub record Stat : Type 0 where
  pub st_mode : ℕ
  pub st_uid : ℕ
  pub st_gid : ℕ

-- What readdir returns for a directory, with what is below it. For a `file` the host's S_ISDIR is
-- false, and `content` is what read returns, st_size bytes.
pub data Files : Type 0 where
  end : Files
  file : (name : List ℕ) → Stat → (content : List ℕ) → (rest : Files) → Files
  directory : (name : List ℕ) → Stat → (children rest : Files) → Files

-- The global variables.
pub record Builder : Type 0 where
  pub out : InitrdHeader
  pub out_data : List ℕ
  pub out_data_cap : ℕ
  pub id : ℕ

unfoldable pub write_dirent : ℕ → InitrdDirent → Builder → Builder
write_dirent i e b = record b { out = record b.out { dirents = assign b.out.dirents i e } }

unfoldable pub write_inode : ℕ → InitrdInode → Builder → Builder
write_inode i e b = record b { out = record b.out { inodes = assign b.out.inodes i e } }

-- `id` is a uint8_t, the arrays have 255 elements, and a name has 0x88 bytes with its 0. The fields
-- are in the order in which they keep what was written last.
unfoldable pub convert_dirent :
    Stat → (is_directory : Bool) (size : ℕ) (name : List ℕ) → Builder → Option (ℕ × Builder)
unfolding write_dirent write_inode
convert_dirent stat is_directory size name b =
    let cur_id = b.id in
    if leb 0xff cur_id || leb 0x88 (length name)
    then none
    else some (
      cur_id,
      write_inode cur_id
          (record {
            id = cur_id;
            mode = stat.st_mode;
            uid = 0xabcdef1;
            gid = stat.st_gid;
            size = if is_directory then 0 else size % 2 ^ 32;
            data_offset = 12341234;
          })
          (write_dirent cur_id (record (b.out.dirents cur_id) { name = name; inode_id = cur_id })
            (record b { id = (b.id + 1) % 2 ^ 8 })),
    )

-- The capacity behind the test of load_data: a uint32_t, while the sum is a size_t.
unfoldable pub reserve : (size : ℕ) → Builder → ℕ
reserve size b =
    if leb (length b.out_data + size) b.out_data_cap
    then b.out_data_cap
    else (length b.out_data + size + 0xff) % 2 ^ 32

-- load_data: the offset of the bytes, and the data with them. out_data_offset is the length of the
-- data, which no write outside the area lets reach 2 ^ 32.
unfoldable pub load_data : (content : List ℕ) → Builder → Option (ℕ × Builder)
unfolding reserve
load_data content b =
    let cap = reserve (length content) b in
    if leb (length b.out_data + length content) cap || length content == 0
    then some (length b.out_data, record b { out_data = b.out_data ++ content; out_data_cap = cap })
    else none

-- `my_dirent->parent = parent; my_dirent->sibling = last`
unfoldable pub link : (i parent last : ℕ) → Builder → Builder
unfolding write_dirent
link i parent last b =
    write_dirent i (record (b.out.dirents i) { parent = parent; sibling = last }) b

-- The two branches at the end of the loop's body.
unfoldable pub finish_directory : (i first : ℕ) → Builder → Builder
unfolding write_dirent write_inode
finish_directory i first b =
    write_inode i (record (b.out.inodes i) { data_offset = 0 })
      (write_dirent i (record (b.out.dirents i) { first_child = first }) b)

unfoldable pub finish_file : (i : ℕ) (content : List ℕ) → Builder → Option Builder
unfolding write_dirent write_inode load_data
finish_file i content b = elim (load_data content b) [
  | none ↦ none
  | some (offset, b') ↦ some (
      write_inode i (record (b'.out.inodes i) { data_offset = offset })
        (write_dirent i (record (b'.out.dirents i) { first_child = 0 }) b'))
]

-- "." and ".."
unfoldable pub is_dot : List ℕ → Bool
unfolding same_name
is_dot name = same_name name (b'.' ∷ []) || same_name name (b'.' ∷ b'.' ∷ [])

-- The body of the loop for a file, and its start for a directory.
unfoldable pub add_file :
    (name : List ℕ) → Stat → (content : List ℕ) (parent last : ℕ) → Builder → Option (ℕ × Builder)
unfolding convert_dirent link finish_file
add_file name stat content parent last b =
    elim (convert_dirent stat false (length content) name b) [
      | none ↦ none
      | some (i, b') ↦ elim (finish_file i content (link i parent last b')) [
        | none ↦ none
        | some b'' ↦ some (i, b'')
      ]
    ]

unfoldable pub start_directory :
    (name : List ℕ) → Stat → (parent last : ℕ) → Builder → Option (ℕ × Builder)
unfolding convert_dirent link
start_directory name stat parent last b = elim (convert_dirent stat true 0 name b) [
  | none ↦ none
  | some (i, b') ↦ some (i, link i parent last b')
]

-- `full_path` is allocated with len + 0xff bytes; the memcpy of 0xff bytes behind the slash writes
-- the byte at len + 0xff as well.
unfoldable pub path_fits : (usable : ℕ → ℕ) (len : ℕ) → Bool
path_fits usable len = ltb (len + 0xff) (usable (len + 0xff))

-- The loop of traverse_dir over the entries left; `len` is the length of the directory's path.
unfoldable pub traverse_dir :
    (usable : ℕ → ℕ) (len : ℕ) → Files → (parent last : ℕ) → Builder → Option (ℕ × Builder)
traverse_dir usable len end parent last b = some (last, b)
traverse_dir usable len (file name stat content rest) parent last b = elim (is_dot name) [
  | true ↦ traverse_dir usable len rest parent last b
  | false ↦ elim (path_fits usable len) [
    | false ↦ none
    | true ↦ elim (add_file name stat content parent last b) [
      | none ↦ none
      | some (i, b') ↦ traverse_dir usable len rest parent i b'
    ]
  ]
]
traverse_dir usable len (directory name stat children rest) parent last b = elim (is_dot name) [
  | true ↦ traverse_dir usable len rest parent last b
  | false ↦ elim (path_fits usable len) [
    | false ↦ none
    | true ↦ elim (start_directory name stat parent last b) [
      | none ↦ none
      | some (i, b') ↦ elim (traverse_dir usable (len + 1 + length name) children i 0 b') [
        | none ↦ none
        | some (first, b'') ↦ traverse_dir usable len rest parent i (finish_directory i first b'')
      ]
    ]
  ]
]

-- memset of the header to 0.
abbrev pub empty_builder : Builder
empty_builder = record {
  out = record {
    num_dirent = 0;
    dirents = λ _. record { name = []; inode_id = 0; parent = 0; first_child = 0; sibling = 0 };
    inodes = λ _. record { id = 0; mode = 0; uid = 0; gid = 0; size = 0; data_offset = 0 };
  };
  out_data = [];
  out_data_cap = 0xff;
  id = 0;
}

-- The end of main: the root's entry.
unfoldable pub finish_root : (first : ℕ) → Builder → Image
finish_root first b = record {
  header = record {
    num_dirent = b.id;
    dirents =
        assign b.out.dirents 0 (record (b.out.dirents 0) { first_child = first; sibling = 0 });
    inodes =
        assign b.out.inodes 0
          (record (b.out.inodes 0) { uid = 0; gid = 0; mode = 0x1ff; data_offset = 0 });
  };
  file_data = b.out_data;
}

-- `len` is the length of the path in argv[1].
unfoldable pub makefs : (usable : ℕ → ℕ) (len : ℕ) → Stat → Files → Option Image
makefs usable len stat files = elim (convert_dirent stat true 0 (b'/' ∷ []) empty_builder) [
  | none ↦ none
  | some (dir_id, b) ↦ elim (traverse_dir usable len files dir_id 0 b) [
    | none ↦ none
    | some (first, b') ↦ some (finish_root first b')
  ]
]
