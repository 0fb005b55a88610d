-- ===== src/Vfs/Files.antt =====
-- What the handlers of open files answer, and that a position set is the position told.
use ocean_linux.Vfs.Effects.{alloc_file_free}
use ocean_linux.Protocol.{e_ok, Reply, value, error, e_noent, e_nomem, e_perm, e_inval}
use ocean_linux.Vfs.Requests.{IsValid, in_use}
use ocean_linux.Vfs.{
  alloc_file, handle_open, handle_close, Vfs, bad_fd, open_file, max_open_files, file_at,
  find_mount, file_is_free, empty_file, OpenFile, release, word_mod,
}
use ocean_linux.Base.{
  ℕ, ◌≡◌, ◌<◌, List, none, false, Option-cases, arith, ◌≢◌, inl, inr, some, true, subst, get_or-set,
  FirstOf, ◌⊎◌, first_index-FirstOf, refl, ap, not, get_or, set, if◌then◌else◌, ◌==◌, ◌∙◌, sym, ◌-◌,
  Bool-cases, ◌≤◌, length, ◌+◌, ◌%◌,
}

-- A file descriptor that is in range, open, and held by the process.
abbrev pub Holds : Vfs → ℕ → ℕ → Type 0
Holds vfs pid fd =
    (bad_fd fd ≡ false) × ((file_at vfs fd).refcount ≢ 0) × ((file_at vfs fd).owner_pid ≡ pid)

-- What a close with success does to the entry: it drops one reference, and with the last one the
-- entry is free and counted off.
abbrev Drops : Vfs → ℕ → Vfs → Type 0
Drops vfs fd after =
    (((file_at vfs fd).refcount ≡ 1)
      × (in_use (file_at after fd) ≡ false)
      × (after.num_open_files ≡ vfs.num_open_files - 1))
    ⊎ ((1 < (file_at vfs fd).refcount)
        × (file_at after fd ≡ record (file_at vfs fd) { refcount = (file_at vfs fd).refcount - 1 })
        × (after.num_open_files ≡ vfs.num_open_files))

-- The answers of handle_close, each with its reason and its effect.
abbrev pub Closes : Vfs → ℕ → ℕ → Vfs → ℕ → Type 0
Closes vfs pid fd after code =
    ((code ≡ e_ok)
      × (fd < max_open_files)
      × (in_use (file_at vfs fd) ≡ true)
      × ((file_at vfs fd).owner_pid ≡ pid)
      × ((k : ℕ) → fd ≢ k → file_at after k ≡ file_at vfs k)
      × Drops vfs fd after)
    ⊎ ((code ≡ e_perm)
        × (fd < max_open_files)
        × (in_use (file_at vfs fd) ≡ true)
        × ((file_at vfs fd).owner_pid ≢ pid)
        × (after.files ≡ vfs.files)
        × (after.num_open_files ≡ vfs.num_open_files))
    ⊎ ((code ≡ e_inval)
        × ((max_open_files ≤ fd) ⊎ (in_use (file_at vfs fd) ≡ false))
        × (after.files ≡ vfs.files)
        × (after.num_open_files ≡ vfs.num_open_files))

release_lem :
    (vfs : Vfs)
    → length vfs.files ≡ max_open_files
    → (fd : ℕ) → fd < max_open_files
    → (file_at vfs fd).refcount ≢ 0
    → ((k : ℕ) → fd ≢ k → file_at (release vfs fd) k ≡ file_at vfs k)
      × Drops vfs fd (release vfs fd)
unfolding release
release_lem vfs sized fd inside held =
    let stored : (f : OpenFile) (k : ℕ)
        → get_or (set vfs.files fd f) k empty_file ≡ (if fd == k then f else file_at vfs k) =
      λ f k. get_or-set vfs.files fd k f empty_file (omega (arith, inside, sized)) in
    elim (Bool-cases ((file_at vfs fd).refcount - 1 == 0)) [
      | inl last ↦
          rw (last, release)
            (
              λ k other. stored empty_file k ∙ ground (arith, other),
              inl (ground (arith, last, held), ap in_use (freed (stored empty_file fd)), refl),
            )
      | inr more ↦
          let f = record (file_at vfs fd) { refcount = (file_at vfs fd).refcount - 1 } in
          rw (more, release)
            (
              λ k other. stored f k ∙ ground (arith, other),
              inr (ground (arith, more, held), stored f fd ∙ ground arith, refl),
            )
    ]
  where
    freed : {x : OpenFile} → x ≡ (if fd == fd then empty_file else file_at vfs fd) → x ≡ empty_file
    freed e = e ∙ ground arith

-- handle_close on a valid state, on every path. It succeeds exactly for an entry of the table that
-- the process holds, of which it drops one reference, and leaves every other entry as it was; with an
-- error no entry has changed.
pub handle_close_lem :
    {vfs : Vfs}
    → IsValid vfs
    → (pid fd : ℕ) → let (after, code) = handle_close vfs pid fd in Closes vfs pid fd after code
unfolding handle_close
handle_close_lem {vfs} v pid fd = elim (Bool-cases (bad_fd fd)) [
  | inl bad ↦ rw (bad, handle_close) (inr (inr (refl, inl (ground (arith, bad)), refl, refl)))
  | inr inside ↦ elim (Bool-cases ((file_at vfs fd).refcount == 0)) [
    | inl free ↦
        rw (inside, free, handle_close) (inr (inr (refl, inr (ground (arith, free)), refl, refl)))
    | inr held ↦ elim (Bool-cases ((file_at vfs fd).owner_pid == pid)) [
      | inr foreign ↦
          rw (inside, held, foreign, handle_close)
            (inr (
              inl (
                refl,
                ground (arith, inside),
                ground (arith, held),
                λ same. absurd (ground (arith, foreign, same)),
                refl,
                refl,
              )))
      | inl own ↦
          let counted : Vfs = record vfs { close_count = (vfs.close_count + 1) % word_mod } in
          let r =
            release_lem counted v.sized fd (ground (arith, inside))
              (λ z. absurd (ground (arith, held, z))) in
          rw (inside, held, own, handle_close)
            (inl
              (refl, ground (arith, inside), ground (arith, held), ground (arith, own), r.0, r.1))
    ]
  ]
]

-- What handle_open answers: with a descriptor, that entry was free, the process holds it at
-- offset 0 on the mount that find_mount chose, and every other entry is as before; with an error,
-- no entry has changed, and either no mount serves the path or no entry is free.
abbrev pub Opens : Vfs → ℕ → List ℕ → ℕ → Vfs → Reply → Type 0
Opens vfs pid path flags after (value fd) =
    (in_use (file_at vfs fd) ≡ false)
    × (find_mount vfs path ≡ some (file_at after fd).mount_idx)
    × Holds after pid fd
    × ((file_at after fd).offset ≡ 0)
    × ((file_at after fd).flags ≡ flags)
    × ((k : ℕ) → fd ≢ k → file_at after k ≡ file_at vfs k)
Opens vfs pid path flags after (error code) =
    (after.files ≡ vfs.files)
    × (((code ≡ e_noent) × (find_mount vfs path ≡ none))
        ⊎ ((code ≡ e_nomem) × ((k : ℕ) → k < max_open_files → in_use (file_at vfs k) ≡ true)))

no_free_file :
    {vfs : Vfs}
    → IsValid vfs
    → alloc_file vfs ≡ none
    → (k : ℕ) → k < max_open_files
    → in_use (file_at vfs k) ≡ true
unfolding alloc_file
no_free_file {vfs} v e k l =
    let f =
      subst (FirstOf file_is_free vfs.files empty_file 0) e
        (first_index-FirstOf file_is_free vfs.files empty_file 0) in
    ap not (f k (omega (arith, v.sized)))

-- handle_open on a valid state, on every path.
pub handle_open_lem :
    {vfs : Vfs}
    → IsValid vfs
    → (pid : ℕ) (path : List ℕ) (flags : ℕ)
    → let (after, reply) = handle_open vfs pid path flags in Opens vfs pid path flags after reply
unfolding handle_open open_file
handle_open_lem {vfs} v pid path flags = elim (Option-cases (find_mount vfs path)) [
  | inl e ↦ rw (e, handle_open) (refl, inl (refl, e))
  | inr (m, e) ↦
      rw (e, handle_open)
        (elim (Option-cases (alloc_file vfs)) [
          | inl g ↦ rw (g, handle_open) (refl, inr (refl, no_free_file v g))
          | inr (fd, g) ↦ let free = alloc_file_free v g in rw (g, handle_open) (opened m fd e free)
        ])
]
  where
    opened :
        (m fd : ℕ)
        → find_mount vfs path ≡ some m
        → (fd < max_open_files) × (in_use (file_at vfs fd) ≡ false)
        → Opens vfs pid path flags (open_file vfs fd pid m flags) (value fd)
    opened m fd e free =
        let f : OpenFile = record {
          owner_pid = pid;
          mount_idx = m;
          inode = 42;
          offset = 0;
          flags = flags;
          refcount = 1;
        } in
        let stored : (k : ℕ)
            → get_or (set vfs.files fd f) k empty_file ≡ (if fd == k then f else file_at vfs k) =
          λ k. get_or-set vfs.files fd k f empty_file (omega (arith, free.0, v.sized)) in
        let self : get_or (set vfs.files fd f) fd empty_file ≡ f = stored fd ∙ ground arith in
        (
          free.1,
          e ∙ ap (λ (x : OpenFile). some x.mount_idx) (sym self),
          (
            ground (arith, free.0),
            λ z. absurd (omega (arith, ap (λ (x : OpenFile). x.refcount) self, z)),
            ap (λ (x : OpenFile). x.owner_pid) self,
          ),
          ap (λ (x : OpenFile). x.offset) self,
          ap (λ (x : OpenFile). x.flags) self,
          λ k other. stored k ∙ ground arith,
        )
