-- ===== src/Makefs/Encodes.antt =====
-- What the header that scripts/makefs.c writes says of the host's tree.
use weird_os.Base.{
  ℕ, suc, ◌+◌, ◌≤◌, ◌<◌, ◌≡◌, refl, ap, ◌∙◌, subst, arith, true, false, if◌then◌else◌, List, [],
  ◌++◌, length,
}
use weird_os.Fs.Image.{InitrdInode, InitrdHeader}
use weird_os.Makefs.{Stat, Files, end, file, directory, is_dot}
use mathlib.Core.List.{append_assoc, append-nil}

-- The entries in the order in which the kernel finds them, each directory's last one first, in
-- front of `behind`. Those named "." and ".." are left out.
unfoldable pub visited : Files → (behind : Files) → Files
visited end behind = behind
visited (file name stat content rest) behind =
    visited rest (if is_dot name then behind else file name stat content behind)
visited (directory name stat children rest) behind =
    visited rest (if is_dot name then behind else directory name stat (visited children end) behind)

-- How many entries there are, and how many bytes.
unfoldable pub entries : Files → ℕ
entries end = 0
entries (file name stat content rest) = suc (entries rest)
entries (directory name stat children rest) = suc (entries children + entries rest)

unfoldable pub bytes : Files → ℕ
bytes end = 0
bytes (file name stat content rest) = length content + bytes rest
bytes (directory name stat children rest) = bytes children + bytes rest

-- Names fit the field of an entry.
abbrev pub ShortNames : Files → Type 0
ShortNames end = Unit
ShortNames (file name stat content rest) = (length name < 0x88) × ShortNames rest
ShortNames (directory name stat children rest) =
    (length name < 0x88) × ShortNames children × ShortNames rest

-- malloc leaves the byte that traverse_dir writes behind the area of a path, in every directory that it
-- enters and that has an entry; `len` is the length of the directory's path.
abbrev pub PathsFit : (usable : ℕ → ℕ) (len : ℕ) → Files → Type 0
PathsFit usable len end = Unit
PathsFit usable len (file name stat content rest) =
    (len + 0xff < usable (len + 0xff)) × PathsFit usable len rest
PathsFit usable len (directory name stat children rest) =
    (len + 0xff < usable (len + 0xff))
    × PathsFit usable (len + 1 + length name) children
    × PathsFit usable len rest

-- The bytes of a file stand at its offset.
pub record Stored (all : List ℕ) (inode : InitrdInode) (content : List ℕ) : Type 0 where
  pub before : List ℕ
  pub behind : List ℕ
  pub splits : all ≡ before ++ (content ++ behind)
  pub offset : inode.data_offset ≡ length before
  pub size : inode.size ≡ length content

-- Entry `j` has the given name, mode and links.
pub record EntryAt (h : InitrdHeader) (j parent first sibling : ℕ) (name : List ℕ) (stat : Stat)
    : Type 0 where
  pub dirent : h.dirents j ≡ record {
    name = name;
    inode_id = j;
    parent = parent;
    first_child = first;
    sibling = sibling;
  }
  pub inode : (h.inodes j).id ≡ j
  pub mode : (h.inodes j).mode ≡ stat.st_mode

-- The entries from `j` on by their siblings are those of the tree, all of them at indices from `low`
-- up to `high`.
abbrev pub Encodes : InitrdHeader → (all : List ℕ) (low high j parent : ℕ) → Files → Type 0
Encodes h all low high j parent end = j ≡ 0
Encodes h all low high j parent (file name stat content rest) =
    (sibling : ℕ) × (low ≤ j)
    × (j < high)
    × EntryAt h j parent 0 sibling name stat
    × Stored all (h.inodes j) content
    × Encodes h all low high sibling parent rest
Encodes h all low high j parent (directory name stat children rest) =
    (sibling : ℕ) × (first : ℕ) × (low ≤ j)
    × (j < high)
    × EntryAt h j parent first sibling name stat
    × Encodes h all (suc j) high first j children
    × Encodes h all low high sibling parent rest

-- The headers have the same entries from `low` up to `high`.
pub record Agrees (h g : InitrdHeader) (low high : ℕ) : Type 0 where
  pub dirents : (k : ℕ) → low ≤ k → k < high → g.dirents k ≡ h.dirents k
  pub inodes : (k : ℕ) → low ≤ k → k < high → g.inodes k ≡ h.inodes k

pub Agrees-narrow :
    {h g : InitrdHeader} {low high low' high' : ℕ}
    → low ≤ low'
    → high' ≤ high
    → Agrees h g low high
    → Agrees h g low' high'
Agrees-narrow p q a = record {
  dirents = λ k l u. a.dirents k (omega arith) (omega arith);
  inodes = λ k l u. a.inodes k (omega arith) (omega arith);
}

pub Agrees-trans :
    {h g f : InitrdHeader} {low high : ℕ}
    → Agrees h g low high
    → Agrees g f low high
    → Agrees h f low high
Agrees-trans a b = record {
  dirents = λ k l u. b.dirents k l u ∙ a.dirents k l u;
  inodes = λ k l u. b.inodes k l u ∙ a.inodes k l u;
}

Stored-extend :
    {all content : List ℕ} {e e' : InitrdInode} (more : List ℕ)
    → e' ≡ e
    → Stored all e content
    → Stored (all ++ more) e' content
Stored-extend more same s = record {
  before = s.before;
  behind = s.behind ++ more;
  splits =
      ap (λ t. t ++ more) s.splits
      ∙ (append_assoc s.before (_ ++ s.behind) more
          ∙ ap (λ t. s.before ++ t) (append_assoc _ s.behind more));
  offset = ap (λ (t : InitrdInode). t.data_offset) same ∙ s.offset;
  size = ap (λ (t : InitrdInode). t.size) same ∙ s.size;
}

pub EntryAt-agree :
    {h g : InitrdHeader} {j parent first sibling : ℕ} {name : List ℕ} {stat : Stat}
    → g.dirents j ≡ h.dirents j
    → g.inodes j ≡ h.inodes j
    → EntryAt h j parent first sibling name stat
    → EntryAt g j parent first sibling name stat
EntryAt-agree d i e = record {
  dirent = d ∙ e.dirent;
  inode = ap (λ (t : InitrdInode). t.id) i ∙ e.inode;
  mode = ap (λ (t : InitrdInode). t.mode) i ∙ e.mode;
}

-- Later entries and later bytes change nothing.
pub Encodes-extend :
    {h g : InitrdHeader} (all : List ℕ) {low high low' high' : ℕ} (more : List ℕ) (j parent : ℕ)
    (t : Files)
    → Agrees h g low high
    → low' ≤ low
    → high ≤ high'
    → Encodes h all low high j parent t
    → Encodes g (all ++ more) low' high' j parent t
Encodes-extend all more j parent end a p q e = e
Encodes-extend all more j parent (file name stat content rest) a p q (sibling, l, u, e, s, r) = (
  sibling,
  omega arith,
  omega arith,
  EntryAt-agree (a.dirents j l u) (a.inodes j l u) e,
  Stored-extend more (a.inodes j l u) s,
  Encodes-extend all more sibling parent rest a p q r,
)
Encodes-extend all more j parent (directory name stat children rest) a p q
      (sibling, first, l, u, e, c, r) =
    (
      sibling,
      first,
      omega arith,
      omega arith,
      EntryAt-agree (a.dirents j l u) (a.inodes j l u) e,
      Encodes-extend all more first j children (Agrees-narrow (omega arith) (omega arith) a)
          (omega arith) q c,
      Encodes-extend all more sibling parent rest a p q r,
    )

pub Encodes-agree :
    {h g : InitrdHeader} (all : List ℕ) {low high : ℕ} (j parent : ℕ) (t : Files)
    → Agrees h g low high
    → Encodes h all low high j parent t
    → Encodes g all low high j parent t
Encodes-agree {g} all {low} {high} j parent t a e =
    subst (λ bs. Encodes g bs low high j parent t) (append-nil all)
      (Encodes-extend all [] j parent t a (omega arith) (omega arith) e)

pub visited-dot_file :
    (name : List ℕ) (stat : Stat) (content : List ℕ) (rest behind : Files)
    → is_dot name ≡ true
    → visited (file name stat content rest) behind ≡ visited rest behind
unfolding visited
visited-dot_file name stat content rest behind dot = rw dot refl

pub visited-file :
    (name : List ℕ) (stat : Stat) (content : List ℕ) (rest behind : Files)
    → is_dot name ≡ false
    → visited (file name stat content rest) behind ≡ visited rest (file name stat content behind)
unfolding visited
visited-file name stat content rest behind plain = rw plain refl

pub visited-dot_directory :
    (name : List ℕ) (stat : Stat) (children rest behind : Files)
    → is_dot name ≡ true
    → visited (directory name stat children rest) behind ≡ visited rest behind
unfolding visited
visited-dot_directory name stat children rest behind dot = rw dot refl

pub visited-directory :
    (name : List ℕ) (stat : Stat) (children rest behind : Files)
    → is_dot name ≡ false
    → visited (directory name stat children rest) behind
      ≡ visited rest (directory name stat (visited children end) behind)
unfolding visited
visited-directory name stat children rest behind plain = rw plain refl
