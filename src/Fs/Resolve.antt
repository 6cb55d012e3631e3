-- ===== src/Fs/Resolve.antt =====
-- What resolve_path of kernel/fs/vfs.cpp finds.
use weird_os.Base.{
  ℕ, ◌<◌, ◌≡◌, refl, sym, ◌∙◌, subst, arith, true, false, ◌==◌, leb, none, some, List, [], ◌∷◌,
  ◌++◌, length, length-append, All, Bool-cases, Option-cases, inl, inr,
}
use weird_os.Fs.Vfs.{Dirents, Vfs, Resolved, found, missing, get_child, resolve_loop, resolve_path}
use weird_os.Util.Text.{sections, split, split-sections}

-- One child after the other, by their names.
unfoldable pub walk : Dirents → (current : ℕ) (names : List (List ℕ)) → Resolved
walk ds current [] = found current
walk ds current (name ∷ names) = elim (get_child ds current name) [
  | none ↦ missing
  | some next ↦ walk ds next names
]

walk-missing :
    (ds : Dirents) (current : ℕ) (name : List ℕ) (names : List (List ℕ))
    → get_child ds current name ≡ none
    → walk ds current (name ∷ names) ≡ missing
unfolding walk
walk-missing ds current name names e = rw (walk, e) refl

walk-next :
    (ds : Dirents) (current next : ℕ) (name : List ℕ) (names : List (List ℕ))
    → get_child ds current name ≡ some next
    → walk ds current (name ∷ names) ≡ walk ds next names
unfolding walk
walk-next ds current next name names e = rw (walk, e) refl

abbrev pub Short : List ℕ → Type 0
Short name = length name < 0xff

sections-cut :
    (sep c : ℕ) (front rest : List ℕ)
    → (c == sep) ≡ true
    → sections sep front (c ∷ rest) ≡ front ∷ sections sep [] rest
unfolding sections
sections-cut sep c front rest e = rw e refl

sections-go :
    (sep c : ℕ) (front rest : List ℕ)
    → (c == sep) ≡ false
    → sections sep front (c ∷ rest) ≡ sections sep (front ++ (c ∷ [])) rest
unfolding sections
sections-go sep c front rest e = rw e refl

front-Short : (sep : ℕ) (front rest : List ℕ) → All Short (sections sep front rest) → Short front
unfolding sections
front-Short sep front [] (short, h) = short
front-Short sep front (c ∷ rest) h = elim (Bool-cases (c == sep)) [
  | inl cut ↦
      let split_off : All Short (front ∷ sections sep [] rest) =
        subst (All Short) (sections-cut sep c front rest cut) h in
      split_off.0
  | inr go ↦
      let longer : Short (front ++ (c ∷ [])) =
        front-Short sep (front ++ (c ∷ [])) rest
          (subst (All Short) (sections-go sep c front rest go) h) in
      omega (arith, longer, length-append front (c ∷ []))
]

resolve_loop-walk :
    (ds : Dirents) (path buf : List ℕ) (current : ℕ)
    → All Short (sections b'/' buf path)
    → resolve_loop ds path buf current ≡ walk ds current (sections b'/' buf path)
unfolding resolve_loop sections walk
resolve_loop-walk ds [] buf current (short, h) =
    let room : leb 0xff (length buf) ≡ false = ground arith in
    elim (Option-cases (get_child ds current buf)) [
      | inl e ↦ rw room refl
      | inr (d, e) ↦ rw room refl
    ]
resolve_loop-walk ds (c ∷ path) buf current h =
    let short : Short buf = front-Short b'/' buf (c ∷ path) h in
    let room : leb 0xff (length buf) ≡ false = ground arith in
    elim (Bool-cases (c == b'/')) [
      | inl cut ↦
          let split_off : All Short (buf ∷ sections b'/' [] path) =
            subst (All Short) (sections-cut b'/' c buf path cut) h in
          elim (Option-cases (get_child ds current buf)) [
            | inl e ↦
                rw (room, cut, e) (sym (walk-missing ds current buf (sections b'/' [] path) e))
            | inr (d, e) ↦
                rw (room, cut, e)
                  (resolve_loop-walk ds path [] d split_off.1
                    ∙ sym (walk-next ds current d buf (sections b'/' [] path) e))
          ]
      | inr go ↦
          rw (room, go)
            (resolve_loop-walk ds path (buf ++ (c ∷ [])) current
              (subst (All Short) (sections-go b'/' c buf path go) h))
    ]

-- resolve_path of an absolute path, none of whose names has more than 254 characters, goes from the
-- root through the children with the names between the slashes. So an empty name, as behind a
-- final slash or in `/` alone, is looked up as well.
pub resolve_path-walk :
    (v : Vfs) (path : List ℕ)
    → All Short (split b'/' path)
    → resolve_path v (b'/' ∷ path) ≡ walk v.dirents v.root_dirent (split b'/' path)
unfolding resolve_path
resolve_path-walk v path short =
    let e = split-sections b'/' path in
    rw e (resolve_loop-walk v.dirents path [] v.root_dirent (subst (All Short) e short))
