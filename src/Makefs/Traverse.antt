-- ===== src/Makefs/Traverse.antt =====
-- traverse_dir of scripts/makefs.c encodes the host's tree.
use weird_os.Base.{
  ℕ, suc, ◌+◌, ◌^◌, ◌≤◌, ◌<◌, ◌≡◌, refl, sym, ap, ◌∙◌, subst, arith, true, some, List, [], ◌++◌,
  length, length-append, Bool-cases, inl, inr,
}
use weird_os.Makefs.{
  Stat, Files, end, file, directory, Builder, is_dot, finish_directory, traverse_dir, path_fits,
  write_dirent, write_inode,
}
use weird_os.Makefs.Encodes.{
  visited, entries, bytes, ShortNames, PathsFit, Encodes, Encodes-extend, Encodes-agree, EntryAt,
  EntryAt-agree, visited-dot_file, visited-file, visited-dot_directory, visited-directory, Agrees,
  Agrees-narrow, Agrees-trans,
}
use weird_os.Makefs.Entries.{
  add_file-Adds, start_directory-Starts, finish_directory-Agrees, finish_directory-EntryAt,
}
use mathlib.Core.List.{append_assoc, append-nil}

-- What a traversal of `t` leaves: entries for `t` in front of `acc`, and more bytes.
pub record Traversed (t acc : Files) (parent low : ℕ) (b : Builder) (r : ℕ) (b' : Builder)
    : Type 0 where
  pub grows : b.id ≤ b'.id
  pub bounded : b'.id ≤ b.id + entries t
  pub agrees : Agrees b.out b'.out 0 b.id
  pub more : List ℕ
  pub appends : b'.out_data ≡ b.out_data ++ more
  pub size : length more ≤ bytes t
  pub encodes : Encodes b'.out b'.out_data low b'.id r parent (visited t acc)

abbrev Traverses :
    (usable : ℕ → ℕ) (len : ℕ) → Files → (acc : Files) (parent low last : ℕ) → Builder → Type 0
Traverses usable len t acc parent low last b =
    (r : ℕ) × (b' : Builder) × (traverse_dir usable len t parent last b ≡ some (r, b'))
    × Traversed t acc parent low b r b'

-- A round of the loop, which leaves `b1`, and the rounds behind it.
Traversed-after :
    {t t' acc acc' : Files} {parent low r : ℕ} {b b1 b' : Builder} (m1 : List ℕ)
    → visited t acc ≡ visited t' acc'
    → b.id ≤ b1.id
    → b1.id + entries t' ≤ b.id + entries t
    → Agrees b.out b1.out 0 b.id
    → b1.out_data ≡ b.out_data ++ m1
    → length m1 + bytes t' ≤ bytes t
    → Traversed t' acc' parent low b1 r b'
    → Traversed t acc parent low b r b'
Traversed-after {parent} {low} {r} {b} {b1} {b'} m1 same up down agrees appended fewer x = record {
  grows = omega (arith, x.grows);
  bounded = omega (arith, x.bounded);
  agrees = Agrees-trans agrees (Agrees-narrow (omega arith) up x.agrees);
  more = m1 ++ x.more;
  appends = x.appends ∙ (ap (λ bs. bs ++ x.more) appended ∙ append_assoc b.out_data m1 x.more);
  size = omega (arith, x.size, length-append m1 x.more);
  encodes = subst (λ v. Encodes b'.out b'.out_data low b'.id r parent v) (sym same) x.encodes;
}

up : {m n : ℕ} → m ≡ n + 1 → n ≤ m
up e = omega arith

nothing : (b : Builder) → Agrees b.out b.out 0 b.id
nothing b = record { dirents = λ k l u. refl; inodes = λ k l u. refl }

-- The entries when the directory `b.id`, entered with `b1`, is finished behind its children.
directory-Encodes :
    (name : List ℕ) (stat : Stat) (children acc : Files) (parent low last old first : ℕ)
    (b b1 b2 : Builder)
    → low ≤ b.id
    → b1.id ≡ b.id + 1
    → Agrees b.out b1.out 0 b.id
    → b1.out_data ≡ b.out_data
    → EntryAt b1.out b.id parent old last name stat
    → Encodes b.out b.out_data low b.id last parent acc
    → Traversed children end b.id (suc b.id) b1 first b2
    → Encodes
        (finish_directory b.id first b2).out
        b2.out_data
        low
        b2.id
        b.id
        parent
        (directory name stat (visited children end) acc)
unfolding finish_directory write_dirent write_inode
directory-Encodes name stat children acc parent low last old first b b1 b2 start next agrees same
      entry e x =
    let i = b.id in
    let b3 : Builder = finish_directory i first b2 in
    let inside : Agrees b2.out b3.out (suc i) b2.id =
      finish_directory-Agrees i first b2 (suc i) b2.id (inr (omega arith)) in
    let outside : Agrees b2.out b3.out low i =
      finish_directory-Agrees i first b2 low i (inl (omega arith)) in
    let until : Agrees b.out b2.out low i =
      Agrees-trans (Agrees-narrow (omega arith) (omega arith) agrees)
        (Agrees-narrow (omega arith) (omega arith) x.agrees) in
    let behind : Encodes b3.out (b.out_data ++ x.more) low b2.id last parent acc =
      Encodes-extend b.out_data {low = low} {high = i} {low' = low} x.more last parent acc
        (Agrees-trans until outside) (omega arith) (omega (arith, x.grows)) e in
    (
      last,
      first,
      start,
      omega (arith, x.grows),
      finish_directory-EntryAt i first b2 (
          EntryAt-agree (x.agrees.dirents i (omega arith) (omega arith))
            (x.agrees.inodes i (omega arith) (omega arith)) entry),
      Encodes-agree b2.out_data {low = suc i} first i (visited children end) inside x.encodes,
      subst (λ bs. Encodes b3.out bs low b2.id last parent acc)
          (sym (x.appends ∙ ap (λ bs. bs ++ x.more) same)) behind,
    )

path_fits-true :
    (usable : ℕ → ℕ) (len : ℕ) → len + 0xff < usable (len + 0xff) → path_fits usable len ≡ true
unfolding path_fits
path_fits-true usable len h = ground arith

pub traverse_dir-Traverses :
    (usable : ℕ → ℕ) (len : ℕ) (t acc : Files) (parent low last : ℕ) (b : Builder)
    → low ≤ b.id
    → b.id + entries t ≤ 0xff
    → length b.out_data + bytes t + 0xff < 2 ^ 32
    → ShortNames t
    → PathsFit usable len t
    → Encodes b.out b.out_data low b.id last parent acc
    → Traverses usable len t acc parent low last b
unfolding traverse_dir visited entries bytes finish_directory write_dirent write_inode
traverse_dir-Traverses usable len end acc parent low last b start room small short paths e = (
  last,
  b,
  refl,
  record {
    grows = omega arith;
    bounded = omega arith;
    agrees = record { dirents = λ k l u. refl; inodes = λ k l u. refl };
    more = [];
    appends = sym (append-nil b.out_data);
    size = omega arith;
    encodes = e;
  },
)
traverse_dir-Traverses usable len (file name stat content rest) acc parent low last b start room
      small (s, short) (path, paths) e =
    elim (Bool-cases (is_dot name)) [
      | inl dot ↦
          let (r, b', run, x) =
            traverse_dir-Traverses usable len rest acc parent low last b start (omega arith)
              (omega arith) short paths e in
          (
            r,
            b',
            rw (traverse_dir, dot) run,
            Traversed-after [] (visited-dot_file name stat content rest acc dot) (omega arith)
                (omega arith) (nothing b) (sym (append-nil b.out_data)) (omega arith) x,
          )
      | inr plain ↦
          let fits = path_fits-true usable len path in
          let (b1, added, next, agrees, appended, entry, stored) =
            add_file-Adds name stat parent last b (omega arith) s content (omega arith) in
          let e' =
            Encodes-extend b.out_data {low = low} {high = b.id} {low' = low} content last parent acc
              (Agrees-narrow (omega arith) (omega arith) agrees) (omega arith) (up next) e in
          let e1 : Encodes b1.out b1.out_data low b1.id b.id parent (file name stat content acc) = (
            last,
            start,
            omega arith,
            entry,
            stored,
            subst (λ all. Encodes b1.out all low b1.id last parent acc) (sym appended) e',
          ) in
          let (r, b', run, x) =
            traverse_dir-Traverses usable len rest (file name stat content acc) parent low b.id b1
              (omega arith) (omega arith)
              (omega (arith, ap length appended, length-append b.out_data content)) short paths
              e1 in
          (
            r,
            b',
            rw (traverse_dir, plain, fits, added) run,
            Traversed-after content (visited-file name stat content rest acc plain) (up next)
                (omega arith) agrees appended (omega arith) x,
          )
    ]
traverse_dir-Traverses usable len (directory name stat children rest) acc parent low last b start
      room small (s, short, short') (path, paths, paths') e =
    elim (Bool-cases (is_dot name)) [
      | inl dot ↦
          let (r, b', run, x) =
            traverse_dir-Traverses usable len rest acc parent low last b start (omega arith)
              (omega arith) short' paths' e in
          (
            r,
            b',
            rw (traverse_dir, dot) run,
            Traversed-after [] (visited-dot_directory name stat children rest acc dot) (omega arith)
                (omega arith) (nothing b) (sym (append-nil b.out_data)) (omega arith) x,
          )
      | inr plain ↦
          let fits = path_fits-true usable len path in
          let (b1, started, next, agrees, same, entry) =
            start_directory-Starts name stat parent last b (omega arith) s in
          let (first, b2, run2, x2) =
            traverse_dir-Traverses usable (len + 1 + length name) children end b.id (suc b.id) 0 b1
              (omega arith) (omega arith) (omega (arith, ap length same)) short paths refl in
          let b3 : Builder = finish_directory b.id first b2 in
          let e3 =
            directory-Encodes name stat children acc parent low last _ first b b1 b2 start next
              agrees same entry e x2 in
          let outside : Agrees b2.out b3.out 0 b.id =
            finish_directory-Agrees b.id first b2 0 b.id (inl (omega arith)) in
          let appended : b3.out_data ≡ b.out_data ++ x2.more =
            x2.appends ∙ ap (λ bs. bs ++ x2.more) same in
          let (r, b', run, x) =
            traverse_dir-Traverses usable len rest (directory name stat (visited children end) acc)
              parent low b.id b3 (omega (arith, x2.grows)) (omega (arith, x2.bounded))
              (omega (arith, ap length appended, length-append b.out_data x2.more, x2.size)) short'
              paths' e3 in
          (
            r,
            b',
            rw (traverse_dir, plain, fits, started, run2) run,
            Traversed-after x2.more (visited-directory name stat children rest acc plain)
                (omega (arith, x2.grows)) (omega (arith, x2.bounded))
                (Agrees-trans
                  (Agrees-trans agrees (Agrees-narrow (omega arith) (omega arith) x2.agrees))
                  outside)
                appended (omega (arith, x2.size)) x,
          )
    ]
