-- ===== src/Ramfs/Names.antt =====
-- Names in directories: a file that was created is found by its name, unless the name is too long.
use ocean_linux.Protocol.{value, error, e_noent, e_ok}
use ocean_linux.Ramfs.{
  Ramfs, handle_create, find_entry, handle_lookup, set_inode, same_name, dir_lookup, inode_at,
  Dirent, zero_inode, dir_add_entry, init_inode, inode_dir, inode_file, max_dir_entries, max_name,
  alloc_inode, Inode,
}
use ocean_linux.Base.{
  ℕ, List, ◌<◌, length, set, ◌≤◌, ◌++◌, ◌≡◌, get_or-set, if◌then◌else◌, take, none, true, ◌∷◌, ◌+◌,
  ◌∙◌, sym, ◌%◌, ◌-◌, [], arith, ◌^◌, some, suc, refl, Bool-cases, ap, ◌≢◌, inl, zero, inr, ltb,
  length-set, get_or, false, leb, length-take, ◌==◌,
}

same_name_self : (name : List ℕ) → same_name name name ≡ true
unfolding same_name
same_name_self [] = refl
same_name_self (c ∷ cs) = ground (arith, same_name_self cs)

same_name-length : (a b : List ℕ) → same_name a b ≡ true → length a ≡ length b
unfolding same_name
same_name-length [] [] h = refl
same_name-length [] (b ∷ bs) h = cc
same_name-length (a ∷ rest) [] h = cc
same_name-length (a ∷ rest) (b ∷ bs) h = ground (arith, same_name-length rest bs)

take-all : (n : ℕ) (xs : List ℕ) → length xs ≤ n → take n xs ≡ xs
take-all zero [] h = refl
take-all zero (x ∷ xs) h = absurd (omega arith)
take-all (suc n) [] h = refl
take-all (suc n) (x ∷ xs) h = ap (λ zs. x ∷ zs) (take-all n xs (omega arith))

too_long : (name : List ℕ) → 63 < length name → same_name (take (max_name - 1) name) name ≡ false
too_long name h = elim (Bool-cases (same_name (take (max_name - 1) name) name)) [
  | inr differs ↦ differs
  | inl same ↦ absurd (
      omega (
        arith,
        h,
        same_name-length (take (max_name - 1) name) name same,
        length-take (max_name - 1) name,
      ))
]

-- An entry that is added at the end decides the search where no other has the name.
find_entry-append :
    (es : List Dirent) (e : Dirent) (name : List ℕ)
    → find_entry es name ≡ none
    → find_entry (es ++ (e ∷ [])) name ≡ (if same_name e.name name then some e.inode else none)
unfolding find_entry
find_entry-append [] e name h = refl
find_entry-append (d ∷ es) e name h = elim (Bool-cases (same_name d.name name)) [
  | inl same ↦ absurd (ground arith)
  | inr other ↦ rw other (find_entry-append es e name (ground arith))
]

dir_lookup-find_entry :
    (fs : Ramfs) (dir_ino : ℕ) (name : List ℕ)
    → (inode_at fs dir_ino).type ≡ inode_dir
    → dir_lookup fs dir_ino name ≡ find_entry (inode_at fs dir_ino).entries name
unfolding dir_lookup
dir_lookup-find_entry fs dir_ino name is_dir = rw is_dir refl

abbrev with_entry : Ramfs → ℕ → List ℕ → ℕ → Inode
with_entry fs dir_ino name ino = record (inode_at fs dir_ino) {
  entries =
      (inode_at fs dir_ino).entries
      ++ (record { inode = ino; name = take (max_name - 1) name } ∷ []);
}

dir_add_entry_lem :
    (fs : Ramfs) (dir_ino : ℕ) (name : List ℕ) (ino : ℕ)
    → (inode_at fs dir_ino).type ≡ inode_dir
    → length (inode_at fs dir_ino).entries < max_dir_entries
    → find_entry (inode_at fs dir_ino).entries name ≡ none
    → dir_add_entry fs dir_ino name ino
      ≡ (set_inode fs dir_ino (with_entry fs dir_ino name ino), e_ok)
unfolding dir_add_entry
dir_add_entry_lem fs dir_ino name ino is_dir room absent =
    let small : leb max_dir_entries (length (inode_at fs dir_ino).entries) ≡ false = ground arith in
    let tested : ((inode_at fs dir_ino).type == inode_dir) ≡ true = ground arith in
    rw (tested, small, absent) refl

-- The name is looked up in a directory to which an entry was added.
added_lookup :
    (fs : Ramfs) (dir_ino : ℕ) (name : List ℕ) (ino : ℕ)
    → dir_ino < length fs.inodes
    → (inode_at fs dir_ino).type ≡ inode_dir
    → find_entry (inode_at fs dir_ino).entries name ≡ none
    → dir_lookup (set_inode fs dir_ino (with_entry fs dir_ino name ino)) dir_ino name
      ≡ (if same_name (take (max_name - 1) name) name then some ino else none)
added_lookup fs dir_ino name ino inside is_dir absent =
    let new : Inode = with_entry fs dir_ino name ino in
    let stored : get_or (set fs.inodes dir_ino new) dir_ino zero_inode ≡ new =
      get_or-set fs.inodes dir_ino dir_ino new zero_inode inside ∙ ground arith in
    dir_lookup-find_entry (set_inode fs dir_ino new) dir_ino name
      (ap (λ (x : Inode). x.type) stored ∙ is_dir)
    ∙ ap (λ (x : Inode). find_entry x.entries name) stored
    ∙ find_entry-append (inode_at fs dir_ino).entries _ name absent

-- A directory with room, in which the name is not found, and a free inode.
pub record Ready (fs : Ramfs) (dir_ino : ℕ) (name : List ℕ) (ino : ℕ) : Type 0 where
  pub inside : dir_ino < length fs.inodes
  pub is_dir : (inode_at fs dir_ino).type ≡ inode_dir
  pub room : length (inode_at fs dir_ino).entries < max_dir_entries
  pub absent : dir_lookup fs dir_ino name ≡ none
  pub fresh : alloc_inode fs ≡ some ino
  pub other : ino ≢ dir_ino
  pub ino_inside : ino < length fs.inodes

module _ {fs : Ramfs} {dir_ino : ℕ} {name : List ℕ} {ino : ℕ} (mode : ℕ)
    (c : Ready fs dir_ino name ino) where
  abbrev made : Ramfs
  made = record fs {
    inodes = set fs.inodes ino (record zero_inode { type = inode_file; mode = mode; nlink = 1 });
    num_inodes = (fs.num_inodes + 1) % 2 ^ 32;
  }

  dir_same : inode_at made dir_ino ≡ inode_at fs dir_ino
  dir_same = get_or-set fs.inodes ino dir_ino _ zero_inode c.ino_inside ∙ ground (arith, c.other)

  made_absent : find_entry (inode_at made dir_ino).entries name ≡ none
  made_absent =
      ap (λ (x : Inode). find_entry x.entries name) dir_same
      ∙ sym (dir_lookup-find_entry fs dir_ino name c.is_dir)
      ∙ c.absent

  created :
      handle_create fs dir_ino name mode
      ≡ (set_inode made dir_ino (with_entry made dir_ino name ino), value ino)
  unfolding handle_create init_inode
  created =
      let added =
        dir_add_entry_lem made dir_ino name ino (ap (λ (x : Inode). x.type) dir_same ∙ c.is_dir)
          (omega (arith, c.room, ap (λ (x : Inode). length x.entries) dir_same)) made_absent in
      rw (c.fresh, handle_create) (rw added refl)

  looked_up :
      dir_lookup (handle_create fs dir_ino name mode).0 dir_ino name
      ≡ (if same_name (take (max_name - 1) name) name then some ino else none)
  looked_up = rw created (
      added_lookup made dir_ino name ino
        (omega (
          arith,
          c.inside,
          length-set fs.inodes ino
              (record zero_inode { type = inode_file; mode = mode; nlink = 1 }),
        ))
        (ap (λ (x : Inode). x.type) dir_same ∙ c.is_dir) made_absent)

  -- Where a directory has room, does not have the name, and an inode is free, handle_create makes
  -- a file of that inode; handle_lookup then finds it by the name if the name is shorter than
  -- MAX_NAME, and answers E_NOENT if it is not.
  pub handle_lookup-handle_create :
      ((handle_create fs dir_ino name mode).1 ≡ value ino)
      × (handle_lookup (handle_create fs dir_ino name mode).0 dir_ino name
          ≡ (if ltb (length name) max_name then value ino else error e_noent))
  unfolding handle_lookup
  handle_lookup-handle_create = (
    ap (λ r. r.1) created,
    elim (Bool-cases (ltb (length name) max_name)) [
      | inl short ↦
          let whole : same_name (take (max_name - 1) name) name ≡ true =
            rw (take-all (max_name - 1) name (ground arith)) (same_name_self name) in
          let found : dir_lookup (handle_create fs dir_ino name mode).0 dir_ino name ≡ some ino =
            looked_up ∙ rw whole refl in
          rw (short, found, handle_lookup) refl
      | inr long ↦
          let cut : same_name (take (max_name - 1) name) name ≡ false =
            too_long name (ground arith) in
          let missing : dir_lookup (handle_create fs dir_ino name mode).0 dir_ino name ≡ none =
            looked_up ∙ rw cut refl in
          rw (long, missing, handle_lookup) refl
    ],
  )
