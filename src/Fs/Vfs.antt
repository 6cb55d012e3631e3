-- ===== src/Fs/Vfs.antt =====
-- Path names and mounting: kernel/fs/vfs.cpp on the directory entries of includes/kernel/fs/fs.h.
-- Entries are numbered, and each field is a function of the number, since rc pointers share
-- entries. update_cache does nothing in every class.
use weird_os.Base.{
  ℕ, Bool, true, false, ◌&&◌, ◌==◌, leb, if◌then◌else◌, Option, none, some, List, [], ◌∷◌, ◌++◌,
  length, drop,
}

-- dirent, without the file that it names.
pub record Dirents : Type 0 where
  pub ident : ℕ → List ℕ
  pub parent : ℕ → Option ℕ
  pub children : ℕ → List ℕ

pub record Vfs : Type 0 where
  pub dirents : Dirents
  pub root_dirent : ℕ

abbrev pub assign {ℓ} : {A : Type ℓ} → (ℕ → A) → ℕ → A → ℕ → A
assign f d v a = if a == d then v else f a

-- The kernel's strcmp, on the characters before the 0.
unfoldable pub same_name : List ℕ → List ℕ → Bool
same_name [] [] = true
same_name [] (y ∷ ys) = false
same_name (x ∷ xs) [] = false
same_name (x ∷ xs) (y ∷ ys) = x == y && same_name xs ys

-- The loop of dirent::get_child.
unfoldable pub find_child : (ident : ℕ → List ℕ) (name : List ℕ) (children : List ℕ) → Option ℕ
find_child ident name [] = none
find_child ident name (d ∷ ds) =
    if same_name name (ident d) then some d else find_child ident name ds

unfoldable pub get_child : Dirents → (dirent : ℕ) (name : List ℕ) → Option ℕ
get_child ds dirent name = find_child ds.ident name (ds.children dirent)

-- A write through the iterator that dirent::get_child_iter returns; `none` if there is no child.
unfoldable pub replace_child :
    (ident : ℕ → List ℕ) (name : List ℕ) (new : ℕ) (children : List ℕ) → Option (List ℕ)
replace_child ident name new [] = none
replace_child ident name new (d ∷ ds) =
    let rest : Option (List ℕ) = elim (replace_child ident name new ds) [
      | none ↦ none
      | some ds' ↦ some (d ∷ ds')
    ] in
    if same_name name (ident d) then some (new ∷ ds) else rest

-- `overflow` is a write behind the 255 characters of `buf`, `bad_path` the failed assertion.
pub data Resolved : Type 0 where
  found : ℕ → Resolved
  missing : Resolved
  overflow : Resolved
  bad_path : Resolved

abbrev pub resolved : Option ℕ → Resolved
resolved none = missing
resolved (some d) = found d

-- The loop of resolve_path and what follows it, by the characters left.
unfoldable pub resolve_loop : Dirents → (path buf : List ℕ) (current : ℕ) → Resolved
resolve_loop ds [] buf current =
    if leb 0xff (length buf) then overflow else resolved (get_child ds current buf)
resolve_loop ds (c ∷ path) buf current =
    let longer = resolve_loop ds path (buf ++ (c ∷ [])) current in
    let deeper : Resolved = elim (get_child ds current buf) [
      | none ↦ missing
      | some next ↦ resolve_loop ds path [] next
    ] in
    if leb 0xff (length buf) then overflow else (if c == b'/' then deeper else longer)

unfoldable pub resolve_path : Vfs → (path : List ℕ) → Resolved
resolve_path v [] = bad_path
resolve_path v (c ∷ path) =
    if c == b'/' then resolve_loop v.dirents path [] v.root_dirent else bad_path

pub data Mounted : Type 0 where
  mounted : Vfs → Mounted
  mount_failed : Mounted

abbrev pub with_ident : Dirents → ℕ → List ℕ → Dirents
with_ident ds d name = record ds { ident = assign ds.ident d name }

-- `path[0] == '/' && strlen(path) == 1`
unfoldable pub is_root_path : List ℕ → Bool
is_root_path (c ∷ []) = c == b'/'
is_root_path [] = false
is_root_path (c ∷ d ∷ path) = false

-- The end of mount_device: the child of `dirent`'s parent that has its name becomes the mounted one.
unfoldable pub mount_over : Vfs → (mount_dirent dirent : ℕ) → Mounted
mount_over v mount_dirent dirent = elim (v.dirents.parent dirent) [
  | none ↦ mount_failed
  | some parent ↦
      elim (replace_child v.dirents.ident (v.dirents.ident dirent) mount_dirent
        (v.dirents.children parent)) [
          | none ↦ mount_failed
          | some children ↦ mounted (record v {
            dirents = record v.dirents { children = assign v.dirents.children parent children };
          })
        ]
]

-- `mount_dirent` is the device's root, which device->mount names by the path.
unfoldable pub mount_device : (path : List ℕ) (mount_dirent : ℕ) → Vfs → Mounted
mount_device path mount_dirent v =
    let ds = with_ident v.dirents mount_dirent path in
    if is_root_path path
    then mounted (record {
      dirents = record ds { parent = assign ds.parent mount_dirent none };
      root_dirent = mount_dirent;
    })
    else elim (resolve_path (record v { dirents = ds }) path) [
      | found dirent ↦
          mount_over (record v { dirents = with_ident ds mount_dirent (drop 1 path) }) mount_dirent
            dirent
      | _ ↦ mount_failed
    ]
