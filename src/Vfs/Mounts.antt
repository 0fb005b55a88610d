-- ===== src/Vfs/Mounts.antt =====
-- Which mount serves a path: the longest mounted path that ends at a component of it.
use ocean_linux.Protocol.{error, e_noent}
use ocean_linux.Vfs.{
  find_mount_from, handle_open, mount_matches, find_mount, MountEntry, Vfs, starts_with,
  empty_mount, slash,
}
use ocean_linux.Base.{
  ℕ, List, Bool, ◌≡◌, ◌≢◌, Option, get_or, not, true, arith, none, ◌<◌, ◌∷◌, ◌==◌, Bool-cases,
  length, inl, ◌≤◌, [], false, suc, ◌&&◌, ltb, subst, some, inr, zero, ◌+◌, Option-cases, refl,
}

-- A mount that serves the path: it is mounted, its path is not empty, and it ends at a component.
unfoldable pub serves : List ℕ → MountEntry → Bool
serves path m = not (m.fs_endpoint == 0) && mount_matches path m.path && ltb 0 (length m.path)

abbrev mount_of : List MountEntry → ℕ → MountEntry
mount_of ms k = get_or ms k empty_mount

-- The result of the loop over the entries `ms`, the first of which has index `i`: what it began
-- with, where no entry that serves the path is longer; otherwise the longest entry that serves it.
data Best (ms : List MountEntry) (path : List ℕ) (i : ℕ) (best : Option ℕ) (len : ℕ)
    : Option ℕ → Type 0 where
  kept :
      ((k : ℕ)
        → k < length ms
        → serves path (mount_of ms k) ≡ true
        → length (mount_of ms k).path ≤ len)
      → Best ms path i best len best
  taken :
      (r k : ℕ)
      → r ≡ i + k
      → k < length ms
      → serves path (mount_of ms k) ≡ true
      → len < length (mount_of ms k).path
      → ((j : ℕ)
          → j < length ms
          → serves path (mount_of ms j) ≡ true
          → length (mount_of ms j).path ≤ length (mount_of ms k).path)
      → Best ms path i best len (some r)

module _ (m : MountEntry) (ms : List MountEntry) (path : List ℕ) (i : ℕ) (best : Option ℕ)
    (len : ℕ) where
  cons_bound :
      (bound : ℕ)
      → (serves path m ≡ true → length m.path ≤ bound)
      → ((k : ℕ)
          → k < length ms
          → serves path (mount_of ms k) ≡ true
          → length (mount_of ms k).path ≤ bound)
      → (k : ℕ) → k < length (m ∷ ms)
      → serves path (mount_of (m ∷ ms) k) ≡ true
      → length (mount_of (m ∷ ms) k).path ≤ bound
  cons_bound bound first rest zero l s = first s
  cons_bound bound first rest (suc k) l s = rest k (omega arith) s

  skip_entry :
      {r : Option ℕ}
      → (serves path m ≡ true → length m.path ≤ len)
      → Best ms path (suc i) best len r
      → Best (m ∷ ms) path i best len r
  skip_entry first (kept b) = kept (cons_bound len first b)
  skip_entry first (taken r k e l s longer b) =
      taken r (suc k) (omega arith) (omega arith) s longer
        (cons_bound _ (λ t. omega (arith, first t)) b)

  take_entry :
      {r : Option ℕ}
      → serves path m ≡ true
      → len < length m.path
      → Best ms path (suc i) (some i) (length m.path) r
      → Best (m ∷ ms) path i best len r
  take_entry s longer (kept b) =
      taken i 0 (omega arith) (omega arith) s longer (cons_bound _ (λ t. omega arith) b)
  take_entry s longer (taken r k e l t more b) =
      taken r (suc k) (omega arith) (omega arith) t (omega arith)
        (cons_bound _ (λ u. omega arith) b)

find_mount_from-Best :
    (ms : List MountEntry) (path : List ℕ) (i : ℕ) (best : Option ℕ) (len : ℕ)
    → Best ms path i best len (find_mount_from ms path i best len)
unfolding find_mount_from
find_mount_from-Best [] path i best len = kept (λ k l. absurd (omega arith))
find_mount_from-Best (m ∷ ms) path i best len =
    elim (Bool-cases
      (not (m.fs_endpoint == 0) && mount_matches path m.path && ltb len (length m.path))) [
        | inl better ↦ rw better (
            take_entry m ms path i best len (unfold serves in ground arith) (ground arith)
              (find_mount_from-Best ms path (suc i) (some i) (length m.path)))
        | inr worse ↦ rw worse (
            skip_entry m ms path i best len (unfold serves in ground arith)
              (find_mount_from-Best ms path (suc i) best len))
      ]

-- What find_mount answers.
abbrev pub FindsMount : List MountEntry → List ℕ → Option ℕ → Type 0
FindsMount ms path none = (k : ℕ) → k < length ms → serves path (get_or ms k empty_mount) ≡ false
FindsMount ms path (some k) =
    (k < length ms)
    × (serves path (get_or ms k empty_mount) ≡ true)
    × ((j : ℕ)
        → j < length ms
        → serves path (get_or ms j empty_mount) ≡ true
        → length (get_or ms j empty_mount).path ≤ length (get_or ms k empty_mount).path)

serves-nonempty : (path : List ℕ) (m : MountEntry) → serves path m ≡ true → 0 < length m.path
unfolding serves
serves-nonempty path m h = ground arith

Best-FindsMount :
    (ms : List MountEntry) (path : List ℕ) (r : Option ℕ)
    → Best ms path 0 none 0 r
    → FindsMount ms path r
Best-FindsMount ms path _ (kept b) = λ k l.
    elim (Bool-cases (serves path (get_or ms k empty_mount))) [
      | inl good ↦
          absurd (omega (arith, b k l good, serves-nonempty path (get_or ms k empty_mount) good))
      | inr bad ↦ bad
    ]
Best-FindsMount ms path _ (taken r k e l s longer b) =
    let same : k ≡ r = omega arith in subst (λ n. FindsMount ms path (some n)) same (l, s, b)

-- find_mount answers with a mounted entry that serves the path, the longest of those that do, and
-- fails only where no mounted entry serves it.
pub find_mount_lem : (vfs : Vfs) (path : List ℕ) → FindsMount vfs.mounts path (find_mount vfs path)
unfolding find_mount
find_mount_lem vfs path =
    Best-FindsMount vfs.mounts path _ (find_mount_from-Best vfs.mounts path 0 none 0)

root_matches_nothing :
    (c : ℕ) (cs : List ℕ) → c ≢ 0 → c ≢ slash → mount_matches (slash ∷ c ∷ cs) (slash ∷ []) ≡ false
unfolding mount_matches starts_with
root_matches_nothing c cs nz ns = ground arith

root_serves_nothing :
    (c : ℕ) (cs : List ℕ) (m : MountEntry)
    → c ≢ 0
    → c ≢ slash
    → (m.fs_endpoint ≢ 0 → m.path ≡ slash ∷ [])
    → serves (slash ∷ c ∷ cs) m ≡ true
    → ⊥
unfolding serves
root_serves_nothing c cs m nz ns e s =
    let mounted : m.fs_endpoint ≢ 0 = λ z. absurd (ground (arith, s, z)) in
    let no_match : mount_matches (slash ∷ c ∷ cs) m.path ≡ false =
      rw (e mounted) (root_matches_nothing c cs nz ns) in
    absurd (ground (arith, s, no_match))

-- A file system that is mounted at "/" serves no path "/c...", whose second byte is neither NUL
-- nor a slash: where every entry of the table that is in use is mounted at "/", handle_open answers
-- E_NOENT.
pub handle_open-root_mount :
    (vfs : Vfs) (pid c : ℕ) (cs : List ℕ) (flags : ℕ)
    → c ≢ 0
    → c ≢ slash
    → ((k : ℕ)
        → (get_or vfs.mounts k empty_mount).fs_endpoint ≢ 0
        → (get_or vfs.mounts k empty_mount).path ≡ slash ∷ [])
    → (handle_open vfs pid (slash ∷ c ∷ cs) flags).1 ≡ error e_noent
unfolding handle_open
handle_open-root_mount vfs pid c cs flags nz ns roots =
    elim (Option-cases (find_mount vfs (slash ∷ c ∷ cs))) [
      | inl e ↦ rw (e, handle_open) refl
      | inr (k, e) ↦
          let f =
            subst (FindsMount vfs.mounts (slash ∷ c ∷ cs)) e
              (find_mount_lem vfs (slash ∷ c ∷ cs)) in
          absurd (root_serves_nothing c cs _ nz ns (roots k) f.1)
    ]
