-- ===== src/Fs/Initrd/Booted.antt =====
-- The root file system: fs::init_fs of kernel/fs/fs.cpp up to the mount of the initial ramdisk, on
-- the image that scripts/makefs.c writes.
use weird_os.Base.{
  ℕ, suc, ◌+◌, ◌^◌, ◌≤◌, ◌<◌, ◌≡◌, refl, sym, ap, ◌∙◌, subst, arith, false, ◌==◌, ltb,
  if◌then◌else◌, Option, none, some, List, [], ◌∷◌, ◌++◌, length, take, drop, Bool-cases, inl, inr,
  All, length-append, take-append_short, drop-append_short, drop-append_more, length-drop, take_all,
  length-take, leb,
}
use weird_os.Fs.Image.{InitrdDirent, Image}
use weird_os.Fs.Initrd.{directory_like, Inode, Cache, cache_one, initrd, empty_cache, read}
use weird_os.Fs.Initrd.Shows.{SameAt, Serves, Shows, Shows-keep, NewEntry, cache_one-NewEntry}
use weird_os.Fs.Initrd.Caches.{ModesAgree, visited-ModesAgree, entries-visited, cache-runs}
use weird_os.Fs.Initrd.Trees.{cache-Cached, linked, unlinked}
use weird_os.Fs.Initrd.Lookup.{Outcome, root-Outcome}
use weird_os.Makefs.Names.{Entry, a_file, a_directory, lookup}
use weird_os.Fs.Resolve.{walk, Short, resolve_path-walk}
use weird_os.Fs.Vfs.{
  assign, is_root_path, Vfs, mounted, mount_failed, mount_device, Resolved, found, missing,
  resolve_path,
}
use weird_os.Makefs.{Stat, Files, end, makefs}
use weird_os.Makefs.Encodes.{visited, entries, bytes, ShortNames, PathsFit}
use weird_os.Makefs.Tree.{Holds, makefs-Holds}
use weird_os.Util.Text.{split, split-cons}

-- `initrd_dev = make_rc<initrd>(0); virt_fs->mount_device("/", initrd_dev)`: the cache, which shares
-- its entries with the mounted file system.
unfoldable pub mount_initrd : (fuel : ℕ) → Image → Option (Cache × Vfs)
unfolding initrd mount_device
mount_initrd fuel image = elim (initrd fuel image) [
  | none ↦ none
  | some (root, c) ↦
      elim (mount_device (b'/' ∷ []) root (record { dirents = c.dirents; root_dirent = 0 })) [
        | mount_failed ↦ none
        | mounted v ↦ some (record c { dirents = v.dirents }, v)
      ]
]

-- The bytes of a part of the content.
slice-Serves :
    (all content : List ℕ) (i : Inode) (nbyte offset : ℕ) (s : Serves all i content)
    → offset + nbyte ≤ length content
    → take nbyte (drop (length s.before + offset) all) ≡ take nbyte (drop offset content)
slice-Serves all content i nbyte offset s l =
    ap (λ bs. take nbyte (drop (length s.before + offset) bs)) s.splits
    ∙ (ap (take nbyte) (drop-append_more offset s.before (content ++ s.behind))
        ∙ (ap (take nbyte) (drop-append_short offset content s.behind (omega arith))
            ∙ take-append_short nbyte (drop offset content) s.behind
                (omega (arith, length-drop offset content))))

length-Serves :
    (all content : List ℕ) (i : Inode) (s : Serves all i content)
    → length s.before + length content ≤ length all
length-Serves all content i s = omega (
  arith,
  ap length s.splits,
  length-append s.before (content ++ s.behind),
  length-append content s.behind,
)

-- A part of the file, and the whole of it, whatever the room in the buffer.
read-part :
    (image : Image) (i : Inode) (content : List ℕ) (nbyte offset : ℕ)
    → Serves image.file_data i content
    → offset + nbyte ≤ length content
    → read image i nbyte offset ≡ some (nbyte, take nbyte (drop offset content))
unfolding read
read-part image i content nbyte offset s l =
    let fits : ltb i.size nbyte ≡ false = let same = s.size in ground arith in
    let inside : ltb (length image.file_data) (length s.before + offset + nbyte) ≡ false =
      let room = length-Serves image.file_data content i s in ground arith in
    rw (read, s.class, fits, inside, slice-Serves image.file_data content i nbyte offset s l) refl

-- A read from the start, whatever the room in the buffer.
pub read-prefix :
    (image : Image) (i : Inode) (content : List ℕ) (nbyte : ℕ)
    → Serves image.file_data i content
    → read image i nbyte 0 ≡ some (length (take nbyte content), take nbyte content)
unfolding read
read-prefix image i content nbyte s = elim (Bool-cases (leb nbyte (length content))) [
  | inl fits ↦
      let l : nbyte ≤ length content = ground arith in
      read-part image i content nbyte 0 s (omega arith)
      ∙ ap (λ n. some (n, take nbyte content)) (sym (length-take nbyte content l))
  | inr larger ↦
      let l : length content ≤ nbyte = ground arith in
      let smaller : (if ltb i.size nbyte then i.size else nbyte) ≡ length content =
        let same = s.size in ground arith in
      let inside : ltb (length image.file_data) (length s.before + 0 + length content) ≡ false =
        let room = length-Serves image.file_data content i s in ground arith in
      rw
        (
          read,
          s.class,
          smaller,
          inside,
          take_all nbyte content l,
          slice-Serves image.file_data content i (length content) 0 s (omega arith),
        )
        (ap (λ bs. some (length content, bs)) (take_all (length content) content (omega arith)))
]

-- What looking up a path and reading the entry found must give. A file has the size of the host's
-- and reads from its start, as far as the buffer has room.
abbrev pub ReadsAs : Image → Cache → Resolved → Option Entry → Type 0
ReadsAs image c r none = r ≡ missing
ReadsAs image c r (some (a_file content)) =
    (d : ℕ) × (r ≡ found d)
    × ((c.m_inode d).size ≡ length content)
    × ((nbyte : ℕ)
        → read image (c.m_inode d) nbyte 0 ≡ some (length (take nbyte content), take nbyte content))
ReadsAs image c r (some (a_directory children)) =
    (d : ℕ) × (r ≡ found d) × ((c.m_inode d).class ≡ directory_like)

pub Outcome-ReadsAs :
    (image : Image) (c : Cache) (low high : ℕ) (r : Resolved) (o : Option Entry)
    → Outcome image.file_data c low high r o
    → ReadsAs image c r o
Outcome-ReadsAs image c low high r none e = e
Outcome-ReadsAs image c low high r (some (a_file content)) (d, e, (s, serves)) =
    (d, e, serves.size, λ nbyte. read-prefix image (c.m_inode d) content nbyte serves)
Outcome-ReadsAs image c low high r (some (a_directory children)) (d, e, (s, shows)) = (d, e, s)

-- The constructor of initrd makes the root's entry 1, and its children show the tree.
pub initrd-Shows :
    (image : Image) (first fuel : ℕ) (files : Files)
    → entries files < 0xff
    → entries files ≤ fuel
    → ModesAgree files
    → Holds image first files
    → (c : Cache) × (initrd (suc fuel) image ≡ some (1, c))
      × (2 ≤ c.next)
      × Shows image.file_data c 1 2 c.next (c.dirents.children 1) (visited files end)
unfolding initrd cache_one entries
initrd-Shows image first fuel files room enough modes h =
    let c1 : Cache = cache_one image.header 0 (image.header.dirents 0) empty_cache in
    let counted : image.header.num_dirent ≤ 0xff = omega (arith, h.counted) in
    let (c2, ids, run, ext, shows) =
      cache-Cached image.header image.file_data 1 image.header.num_dirent (omega arith) counted
        (visited files end) fuel 1 first 0 c1 (omega (arith, entries-visited files end))
        (omega arith) (omega arith) (visited-ModesAgree files end modes tt) h.encodes in
    let new : NewEntry image.header 0 (image.header.dirents 0) c1 1 =
      cache_one-NewEntry image.header 0 (image.header.dirents 0) empty_cache (omega arith) in
    (
      c2,
      (cache-runs image.header fuel 0 0 empty_cache c1 c2 (omega arith)
          (omega (arith, ap (λ (t : InitrdDirent). t.inode_id) h.root))
          (unlinked image.header fuel 0 c1 (ap (λ (t : InitrdDirent). t.sibling) h.root))
          (linked image.header fuel 1 c1 (ap (λ (t : InitrdDirent). t.first_child) h.root) run)),
      ext.grows,
      subst (λ ks. Shows image.file_data c2 1 2 c2.next ks (visited files end))
          (sym (ext.children ∙ ap (λ ks. ks ++ ids) new.children)) shows,
    )

mount_initrd-runs :
    (fuel : ℕ) (image : Image) (c : Cache)
    → initrd fuel image ≡ some (1, c)
    → (c' : Cache) × (v : Vfs) × (mount_initrd fuel image ≡ some (c', v))
      × (c'.dirents ≡ v.dirents)
      × (v.root_dirent ≡ 1)
      × (c'.next ≡ c.next)
      × (c'.dirents.children 1 ≡ c.dirents.children 1)
      × ((d : ℕ) → 2 ≤ d → SameAt c c' d)
unfolding mount_initrd mount_device is_root_path
mount_initrd-runs fuel image c run =
    let v : Vfs = record {
      dirents = record {
        ident = assign c.dirents.ident 1 (b'/' ∷ []);
        parent = assign c.dirents.parent 1 none;
        children = c.dirents.children;
      };
      root_dirent = 1;
    } in
    (
      record c { dirents = v.dirents },
      v,
      rw (mount_initrd, run) refl,
      refl,
      refl,
      refl,
      refl,
      λ d l.
          let other : (d == 1) ≡ false = ground arith in
          record { ident = rw other refl; parent = rw other refl; children = refl; m_inode = refl },
    )

-- The tree of the host, written by makefs and mounted as the root file system, has at most 254
-- entries, fewer than 2 ^ 32 - 255 bytes, names that fit, paths for which malloc leaves a byte behind
-- the size asked for, and modes by which the kernel and the host agree on what is a directory. makefs
-- does not fail then, nor does the kernel's constructor, and resolve_path of an absolute path whose names
-- have fewer than 255 characters each finds an entry exactly if the names of
-- the path lead to one in the host's tree; of several entries of one name that is the last. A file
-- that is found has the size of the host's file and reads as it did, up to the length asked for, and
-- a directory is a directory.
pub makefs-resolve_path :
    (usable : ℕ → ℕ) (len : ℕ) (stat : Stat) (files : Files) (path : List ℕ)
    → entries files < 0xff
    → bytes files + 0xff < 2 ^ 32
    → ShortNames files
    → PathsFit usable len files
    → ModesAgree files
    → All Short (split b'/' path)
    → (image : Image) × (c : Cache) × (v : Vfs) × (makefs usable len stat files ≡ some image)
      × (mount_initrd 0x100 image ≡ some (c, v))
      × ReadsAs image c
          (resolve_path v (b'/' ∷ path))
          (lookup (a_directory files) (split b'/' path))
makefs-resolve_path usable len stat files path room small short paths modes names =
    let (image, first, made, h) = makefs-Holds usable len stat files room small short paths in
    let (c, run, _, shows) = initrd-Shows image first 0xff files room (omega arith) modes h in
    let (c', v, mounts, same, at_root, same_next, kids, kept) =
      mount_initrd-runs 0x100 image c run in
    let (name, rest, cut) = split-cons b'/' path in
    let all = image.file_data in
    let mounted_shows : Shows all c' 1 2 c'.next (c'.dirents.children 1) (visited files end) =
      subst (λ ids. Shows all c' 1 2 c'.next ids (visited files end)) (sym kids)
        (Shows-keep all 1 (c.dirents.children 1) (visited files end) (λ d l u. kept d l)
          (omega arith) (omega arith) shows) in
    let outcome : Outcome all c' 2 c'.next (walk c'.dirents 1 (split b'/' path))
        (lookup (a_directory files) (split b'/' path)) =
      subst (λ ns. Outcome all c' 2 c'.next (walk c'.dirents 1 ns) (lookup (a_directory files) ns))
        (sym cut) (root-Outcome all c' 2 c'.next 1 files name rest mounted_shows) in
    let walked : resolve_path v (b'/' ∷ path) ≡ walk c'.dirents 1 (split b'/' path) =
      resolve_path-walk v path names
      ∙ (ap (λ d. walk v.dirents d (split b'/' path)) at_root
          ∙ ap (λ ds. walk ds 1 (split b'/' path)) (sym same)) in
    (
      image,
      c',
      v,
      made,
      mounts,
      subst (λ r. ReadsAs image c' r (lookup (a_directory files) (split b'/' path))) (sym walked)
          (Outcome-ReadsAs image c' 2 c'.next _ (lookup (a_directory files) (split b'/' path))
            outcome),
    )
