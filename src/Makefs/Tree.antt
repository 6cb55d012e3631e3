-- ===== src/Makefs/Tree.antt =====
-- The image that makefs writes: scripts/makefs.c, main.
use weird_os.Base.{ℕ, ◌+◌, ◌^◌, ◌≤◌, ◌<◌, ◌≡◌, refl, arith, true, false, ◌==◌, some, [], ◌∷◌}
use weird_os.Fs.Image.{Image}
use weird_os.Makefs.{
  Stat, Files, end, Builder, write_dirent, write_inode, empty_builder, finish_root, makefs,
}
use weird_os.Makefs.Encodes.{
  visited, entries, bytes, ShortNames, PathsFit, Agrees, Encodes, Encodes-agree,
}
use weird_os.Makefs.Entries.{converted, convert_dirent-some}
use weird_os.Makefs.Traverse.{traverse_dir-Traverses}

-- The image holds the tree: entry 0 is the root "/", and from its first child on the entries are
-- those of the tree.
pub record Holds (image : Image) (first : ℕ) (files : Files) : Type 0 where
  pub root :
      image.header.dirents 0
      ≡ record { name = b'/' ∷ []; inode_id = 0; parent = 0; first_child = first; sibling = 0 }
  pub root_id : (image.header.inodes 0).id ≡ 0
  pub root_mode : (image.header.inodes 0).mode ≡ 0x1ff
  pub counted : image.header.num_dirent ≤ 1 + entries files
  pub encodes :
      Encodes image.header image.file_data 1 image.header.num_dirent first 0 (visited files end)

-- The builder when the root's entry is written.
abbrev started : Stat → Builder
started stat = converted stat true 0 (b'/' ∷ []) empty_builder

root-Agrees : (b : Builder) (first high : ℕ) → Agrees b.out (finish_root first b).header 1 high
unfolding finish_root
root-Agrees b first high = record {
  dirents = λ k l u. let other : (k == 0) ≡ false = ground arith in rw other refl;
  inodes = λ k l u. let other : (k == 0) ≡ false = ground arith in rw other refl;
}

pub makefs-Holds :
    (usable : ℕ → ℕ) (len : ℕ) (stat : Stat) (files : Files)
    → entries files < 0xff
    → bytes files + 0xff < 2 ^ 32
    → ShortNames files
    → PathsFit usable len files
    → (image : Image) × (first : ℕ) × (makefs usable len stat files ≡ some image)
      × Holds image first files
unfolding makefs finish_root write_dirent write_inode
makefs-Holds usable len stat files room small short paths =
    let begun =
      convert_dirent-some stat true 0 (b'/' ∷ []) empty_builder (omega arith) (omega arith) in
    let (first, b, run, x) =
      traverse_dir-Traverses usable len files end 0 1 0 (started stat) (omega arith) (omega arith)
        (omega arith) short paths refl in
    (
      finish_root first b,
      first,
      rw (makefs, begun, run) refl,
      record {
        root = rw (x.agrees.dirents 0 (omega arith) (omega arith)) refl;
        root_id = rw (x.agrees.inodes 0 (omega arith) (omega arith)) refl;
        root_mode = refl;
        counted = omega (arith, x.bounded);
        encodes =
            Encodes-agree b.out_data {low = 1} first 0 (visited files end)
              (root-Agrees b first b.id) x.encodes;
      },
    )
