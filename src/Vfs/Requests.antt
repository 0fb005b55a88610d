-- ===== src/Vfs/Requests.antt =====
-- Histories of requests: the tables keep their sizes, num_open_files counts the open entries, and
-- no request touches the open files of another process.
use ocean_linux.Vfs.{
  OpenFile, vfs_init, Vfs, handle_mount, file_at, handle_open, max_open_files, max_mounts,
  handle_close, handle_read, empty_file, handle_write, handle_lseek,
}
use ocean_linux.Base.{
  ℕ, List, Bool, not, ◌==◌, ◌∷◌, ap, ◌≡◌, ◌<◌, length, count_if, false, ◌∙◌, true, [], ◌⊎◌, set,
  ◌≢◌, sym, get_or, length-set, ◌+◌, if◌then◌else◌, arith, count_if-set, inl, inr, get_or-set,
  count_if-replicate, refl,
}

-- The requests that the server handles, with the process that sends each; a mount is the server's
-- own.
pub data Request : Type 0 where
  mount : List ℕ → ℕ → ℕ → Request
  open_path : ℕ → List ℕ → ℕ → Request
  close : ℕ → ℕ → Request
  read write : ℕ → ℕ → ℕ → Request
  lseek : ℕ → ℕ → ℕ → ℕ → Request

unfoldable pub step : Vfs → Request → Vfs
step vfs (mount target fs_endpoint flags) = (handle_mount vfs target fs_endpoint flags).0
step vfs (open_path pid path flags) = (handle_open vfs pid path flags).0
step vfs (close pid fd) = (handle_close vfs pid fd).0
step vfs (read pid fd count) = (handle_read vfs pid fd count).0
step vfs (write pid fd count) = (handle_write vfs pid fd count).0
step vfs (lseek pid fd offset whence) = (handle_lseek vfs pid fd offset whence).0

unfoldable pub run : Vfs → List Request → Vfs
run vfs [] = vfs
run vfs (r ∷ rs) = run (step vfs r) rs

abbrev pub in_use : OpenFile → Bool
in_use f = not (f.refcount == 0)

pub record IsValid (vfs : Vfs) : Type 0 where
  pub sized : length vfs.files ≡ max_open_files
  pub mounts_sized : length vfs.mounts ≡ max_mounts
  pub counted : vfs.num_open_files ≡ count_if in_use vfs.files

pub vfs_init-IsValid : IsValid vfs_init
unfolding vfs_init
vfs_init-IsValid = record {
  sized = refl;
  mounts_sized = refl;
  counted = sym (count_if-replicate in_use max_open_files empty_file refl);
}

-- A change of one entry of the files, whose use is counted.
pub record Touches (vfs after : Vfs) (fd : ℕ) (f : OpenFile) : Type 0 where
  pub inside : fd < max_open_files
  pub stored : after.files ≡ set vfs.files fd f
  pub mounts_same : length after.mounts ≡ length vfs.mounts
  pub count_same :
      after.num_open_files + (if in_use (file_at vfs fd) then 1 else 0)
      ≡ vfs.num_open_files + (if in_use f then 1 else 0)

-- What a request does: it leaves the files and their counter, or it changes one entry that is free
-- or that the sender owns.
pub data Effect (vfs after : Vfs) (sender : ℕ) : Type 0 where
  untouched :
      after.files ≡ vfs.files
      → length after.mounts ≡ length vfs.mounts
      → after.num_open_files ≡ vfs.num_open_files
      → Effect vfs after sender
  touched :
      (fd : ℕ) (f : OpenFile)
      → Touches vfs after fd f
      → (in_use (file_at vfs fd) ≡ false) ⊎ ((file_at vfs fd).owner_pid ≡ sender)
      → Effect vfs after sender

pub Effect-IsValid :
    {vfs after : Vfs} {sender : ℕ} → IsValid vfs → Effect vfs after sender → IsValid after
Effect-IsValid v (untouched fs ms ns) = record {
  sized = ap length fs ∙ v.sized;
  mounts_sized = ms ∙ v.mounts_sized;
  counted = ns ∙ v.counted ∙ sym (ap (count_if in_use) fs);
}
Effect-IsValid {vfs} {after} v (touched fd f t who) = record {
  sized = ap length t.stored ∙ length-set vfs.files fd f ∙ v.sized;
  mounts_sized = t.mounts_same ∙ v.mounts_sized;
  counted = omega (
    arith,
    t.count_same,
    v.counted,
    count_if-set in_use vfs.files fd f empty_file (omega (arith, t.inside, v.sized)),
    ap (count_if in_use) t.stored,
  );
}

-- An entry in use whose owner is not the sender stays.
pub Effect-keeps :
    {vfs after : Vfs} {sender : ℕ}
    → IsValid vfs
    → Effect vfs after sender
    → (fd : ℕ) → in_use (file_at vfs fd) ≡ true
    → (file_at vfs fd).owner_pid ≢ sender
    → file_at after fd ≡ file_at vfs fd
Effect-keeps v (untouched fs ms ns) fd used other = ap (λ xs. get_or xs fd empty_file) fs
Effect-keeps {vfs} v (touched k f t who) fd used other =
    let apart : k ≢ fd = λ e. elim who [
      | inl free ↦ absurd (clash (sym used ∙ ap (λ n. in_use (file_at vfs n)) (sym e) ∙ free))
      | inr owner ↦ other (ap (λ n. (file_at vfs n).owner_pid) (sym e) ∙ owner)
    ] in
    ap (λ xs. get_or xs fd empty_file) t.stored
    ∙ get_or-set vfs.files k fd f empty_file (omega (arith, t.inside, v.sized))
    ∙ ground arith
  where
    clash : true ≡ false → ⊥
    clash h = cc
