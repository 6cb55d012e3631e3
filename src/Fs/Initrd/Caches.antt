-- ===== src/Fs/Initrd/Caches.antt =====
-- initrd::cache of kernel/fs/initrd.cpp on a header that encodes a tree of the host.
use weird_os.Base.{
  ℕ, zero, suc, ◌+◌, ◌≤◌, ◌<◌, ◌≡◌, refl, ap, arith, true, false, leb, some, List, Bool-cases, inl,
  inr,
}
use weird_os.Fs.Image.{InitrdInode, InitrdHeader, is_dir}
use weird_os.Fs.Initrd.{
  directory_like, rdfs_inode, Cache, make_inode, cache_one, when_linked, cache,
}
use weird_os.Fs.Initrd.Shows.{Serves, Shows, Extends}
use weird_os.Makefs.{Files, end, file, directory, is_dot}
use weird_os.Makefs.Encodes.{visited, entries, Stored}

-- The host's S_ISDIR and the kernel's agree on the modes.
abbrev pub ModesAgree : Files → Type 0
ModesAgree end = Unit
ModesAgree (file name stat content rest) = (is_dir stat.st_mode ≡ false) × ModesAgree rest
ModesAgree (directory name stat children rest) =
    (is_dir stat.st_mode ≡ true) × ModesAgree children × ModesAgree rest

pub visited-ModesAgree :
    (t acc : Files) → ModesAgree t → ModesAgree acc → ModesAgree (visited t acc)
unfolding visited
visited-ModesAgree end acc m a = a
visited-ModesAgree (file name stat content rest) acc (here, m) a = elim (Bool-cases (is_dot name)) [
  | inl dot ↦ rw dot (visited-ModesAgree rest acc m a)
  | inr plain ↦ rw plain (visited-ModesAgree rest (file name stat content acc) m (here, a))
]
visited-ModesAgree (directory name stat children rest) acc (here, below, m) a =
    let inside = visited-ModesAgree children end below tt in
    elim (Bool-cases (is_dot name)) [
      | inl dot ↦ rw dot (visited-ModesAgree rest acc m a)
      | inr plain ↦ rw plain (
          visited-ModesAgree rest (directory name stat (visited children end) acc) m
            (here, inside, a))
    ]

pub entries-visited : (t acc : Files) → entries (visited t acc) ≤ entries t + entries acc
unfolding visited entries
entries-visited end acc = omega arith
entries-visited (file name stat content rest) acc = elim (Bool-cases (is_dot name)) [
  | inl dot ↦ rw dot (omega (arith, entries-visited rest acc))
  | inr plain ↦ rw plain (omega (arith, entries-visited rest (file name stat content acc)))
]
entries-visited (directory name stat children rest) acc = elim (Bool-cases (is_dot name)) [
  | inl dot ↦ rw dot (omega (arith, entries-visited rest acc))
  | inr plain ↦ rw plain (
      omega (
        arith,
        entries-visited children end,
        entries-visited rest (directory name stat (visited children end) acc),
      ))
]

-- A call is its own writes and the calls for the sibling and the first child.
pub cache-runs :
    (header : InitrdHeader) (fuel p j : ℕ) (c c2 c3 : Cache)
    → j < 0xff
    → (header.dirents j).inode_id < 0xff
    → when_linked
        (cache header fuel p)
        (header.dirents j).sibling
        (cache_one header p (header.dirents j) c)
      ≡ some c2
    → when_linked (cache header fuel c.next) (header.dirents j).first_child c2 ≡ some c3
    → cache header (suc fuel) p j c ≡ some (c.next, c3)
unfolding cache
cache-runs header fuel p j c c2 c3 u i r r' =
    let in_array : leb 0xff j ≡ false = ground arith in
    let in_inodes : leb 0xff (header.dirents j).inode_id ≡ false = ground arith in
    rw (cache, in_array, in_inodes, r, r') refl

pub when_linked-runs :
    (header : InitrdHeader) (fuel p j d : ℕ) (c c' : Cache)
    → zero < j
    → cache header fuel p j c ≡ some (d, c')
    → when_linked (cache header fuel p) j c ≡ some c'
unfolding when_linked
when_linked-runs header fuel p zero d c c' l r = absurd (omega arith)
when_linked-runs header fuel p (suc j) d c c' l r = rw (when_linked, r) refl

abbrev pub Cached : InitrdHeader → (all : List ℕ) (fuel p j : ℕ) → Cache → Files → Type 0
Cached header all fuel p j c t =
    (c' : Cache) × (ids : List ℕ) × (when_linked (cache header fuel p) j c ≡ some c')
    × Extends c c' p ids
    × Shows all c' p c.next c'.next ids t

-- The inode of a file, and that of a directory.
pub make_inode-Serves :
    {all content : List ℕ} (i : InitrdInode)
    → is_dir i.mode ≡ false
    → Stored all i content
    → Serves all (make_inode i) content
unfolding make_inode
make_inode-Serves i plain s = record {
  before = s.before;
  behind = s.behind;
  splits = s.splits;
  class = rw plain (ap rdfs_inode s.offset);
  size = s.size;
}

pub make_inode-directory :
    (i : InitrdInode) → is_dir i.mode ≡ true → (make_inode i).class ≡ directory_like
unfolding make_inode
make_inode-directory i dir = rw dir refl
