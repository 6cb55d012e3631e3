-- ===== src/Makefs/Entries.antt =====
-- One round of the loop of scripts/makefs.c: the entry that it writes, and what it leaves.
use weird_os.Base.{
  ℕ, ◌+◌, ◌%◌, ◌^◌, ◌≤◌, ◌<◌, ◌≡◌, refl, sym, ap, arith, Bool, true, false, ◌==◌, leb,
  if◌then◌else◌, some, List, [], ◌++◌, length, ◌⊎◌, ==_iff,
}
use weird_os.Makefs.{
  Stat, Builder, add_file, start_directory, finish_directory, convert_dirent, write_dirent,
  write_inode, link, finish_file, reserve, load_data,
}
use weird_os.Makefs.Encodes.{Stored, EntryAt, Agrees}
use mathlib.Core.List.{append-nil}

-- The builder behind convert_dirent.
abbrev pub converted : Stat → (is_directory : Bool) (size : ℕ) (name : List ℕ) → Builder → Builder
converted stat is_directory size name b =
    write_inode b.id
      (record {
        id = b.id;
        mode = stat.st_mode;
        uid = 0xabcdef1;
        gid = stat.st_gid;
        size = if is_directory then 0 else size % 2 ^ 32;
        data_offset = 12341234;
      })
      (write_dirent b.id (record (b.out.dirents b.id) { name = name; inode_id = b.id })
        (record b { id = (b.id + 1) % 2 ^ 8 }))

pub convert_dirent-some :
    (stat : Stat) (is_directory : Bool) (size : ℕ) (name : List ℕ) (b : Builder)
    → b.id < 0xff
    → length name < 0x88
    → convert_dirent stat is_directory size name b
      ≡ some (b.id, converted stat is_directory size name b)
unfolding convert_dirent
convert_dirent-some stat is_directory size name b room short =
    let in_array : leb 0xff b.id ≡ false = ground arith in
    let fits : leb 0x88 (length name) ≡ false = ground arith in rw (in_array, fits) refl

-- The builder behind finish_file.
abbrev pub file_finished : (i : ℕ) (content : List ℕ) → Builder → Builder
file_finished i content b =
    let b' : Builder = record b {
      out_data = b.out_data ++ content;
      out_data_cap = reserve (length content) b;
    } in
    write_inode i (record (b'.out.inodes i) { data_offset = length b.out_data })
      (write_dirent i (record (b'.out.dirents i) { first_child = 0 }) b')

-- Below 2 ^ 32 the area is large enough.
load_data-some :
    (content : List ℕ) (b : Builder)
    → length b.out_data + length content + 0xff < 2 ^ 32
    → load_data content b
      ≡ some (
        length b.out_data,
        record b { out_data = b.out_data ++ content; out_data_cap = reserve (length content) b },
      )
unfolding load_data reserve
load_data-some content b small = ground arith

module _ (name : List ℕ) (stat : Stat) (parent last : ℕ) (b : Builder) (room : b.id < 0xff)
    (short : length name < 0x88) where
  -- add_file does not fail. It writes the next entry and no other, and appends the content.
  pub add_file-Adds :
      (content : List ℕ)
      → length b.out_data + length content + 0xff < 2 ^ 32
      → (b' : Builder) × (add_file name stat content parent last b ≡ some (b.id, b'))
        × (b'.id ≡ b.id + 1)
        × Agrees b.out b'.out 0 b.id
        × (b'.out_data ≡ b.out_data ++ content)
        × EntryAt b'.out b.id parent 0 last name stat
        × Stored b'.out_data (b'.out.inodes b.id) content
  unfolding add_file finish_file link write_dirent write_inode load_data
  add_file-Adds content small =
      let here : (b.id == b.id) ≡ true = (==_iff b.id b.id).1 refl in
      let stored =
        load_data-some content
          (link b.id parent last (converted stat false (length content) name b)) small in
      (
        file_finished b.id content
            (link b.id parent last (converted stat false (length content) name b)),
        rw
            (
              add_file,
              convert_dirent-some stat false (length content) name b room short,
              finish_file,
              stored,
            )
            refl,
        omega arith,
        record {
          dirents = λ k l u. let other : (k == b.id) ≡ false = ground arith in rw other refl;
          inodes = λ k l u. let other : (k == b.id) ≡ false = ground arith in rw other refl;
        },
        refl,
        record { dirent = rw here refl; inode = rw here refl; mode = rw here refl },
        record {
          before = b.out_data;
          behind = [];
          splits = ap (λ t. b.out_data ++ t) (sym (append-nil content));
          offset = rw here (omega arith);
          size = rw here (omega arith);
        },
      )

  -- start_directory does not fail. It writes the next entry and no other.
  pub start_directory-Starts :
      (b' : Builder) × (start_directory name stat parent last b ≡ some (b.id, b'))
      × (b'.id ≡ b.id + 1)
      × Agrees b.out b'.out 0 b.id
      × (b'.out_data ≡ b.out_data)
      × EntryAt b'.out b.id parent (b'.out.dirents b.id).first_child last name stat
  unfolding start_directory link write_dirent write_inode
  start_directory-Starts =
      let here : (b.id == b.id) ≡ true = (==_iff b.id b.id).1 refl in
      (
        link b.id parent last (converted stat true 0 name b),
        rw (start_directory, convert_dirent-some stat true 0 name b room short) refl,
        omega arith,
        record {
          dirents = λ k l u. let other : (k == b.id) ≡ false = ground arith in rw other refl;
          inodes = λ k l u. let other : (k == b.id) ≡ false = ground arith in rw other refl;
        },
        refl,
        record { dirent = rw here refl; inode = rw here refl; mode = rw here refl },
      )

module _ (i first : ℕ) (b : Builder) where
  -- finish_directory writes entry `i` alone, and gives it its first child.
  pub finish_directory-Agrees :
      (low high : ℕ)
      → (high ≤ i) ⊎ (i < low)
      → Agrees b.out (finish_directory i first b).out low high
  unfolding finish_directory write_dirent write_inode
  finish_directory-Agrees low high apart = record {
    dirents = λ k l u. let other : (k == i) ≡ false = ground arith in rw other refl;
    inodes = λ k l u. let other : (k == i) ≡ false = ground arith in rw other refl;
  }

  pub finish_directory-EntryAt :
      {parent old last : ℕ} {name : List ℕ} {stat : Stat}
      → EntryAt b.out i parent old last name stat
      → EntryAt (finish_directory i first b).out i parent first last name stat
  unfolding finish_directory write_dirent write_inode
  finish_directory-EntryAt e =
      let here : (i == i) ≡ true = (==_iff i i).1 refl in
      record { dirent = rw (here, e.dirent) refl; inode = rw here e.inode; mode = rw here e.mode }

  pub finish_directory-keeps :
      ((finish_directory i first b).id ≡ b.id)
      × ((finish_directory i first b).out_data ≡ b.out_data)
  unfolding finish_directory write_dirent write_inode
  finish_directory-keeps = (refl, refl)
