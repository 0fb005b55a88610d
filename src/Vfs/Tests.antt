-- ===== src/Vfs/Tests.antt =====
-- Runs of the server: a file system at "/mnt", a file that process 7 opens there, and requests of
-- other processes.
use ocean_linux.Protocol.{error, e_noent, value}
use ocean_linux.Vfs.Files.{Opens, handle_open_lem, Closes, handle_close_lem}
use ocean_linux.Vfs.Isolation.{run-IsValid, run-keeps_files}
use ocean_linux.Vfs.Mounts.{FindsMount, find_mount_lem, handle_open-root_mount}
use ocean_linux.Vfs.Requests.{run, step, IsValid, mount, open_path, vfs_init-IsValid, close, write}
use ocean_linux.Vfs.{
  handle_close, handle_open, Vfs, find_mount, handle_mount, slash, vfs_init, empty_mount,
  find_mount_from, mount_matches, starts_with, alloc_file, open_file, add_mount, file_at,
}
use ocean_linux.Base.{
  ℕ, List, ◌∷◌, ◌≡◌, [], get_or, first_index, suc, arith, zero, refl, ◌≢◌, replicate,
  get_or-replicate,
}

abbrev mnt : List ℕ
mnt = 47 ∷ 109 ∷ 110 ∷ 116 ∷ []

abbrev mnt_a : List ℕ
mnt_a = 47 ∷ 109 ∷ 110 ∷ 116 ∷ 47 ∷ 97 ∷ []

abbrev opened : Vfs
opened = run vfs_init (mount mnt 100 0 ∷ open_path 7 mnt_a 2 ∷ [])

run-open_example : IsValid opened
run-open_example =
    run-IsValid vfs_init (mount mnt 100 0 ∷ open_path 7 mnt_a 2 ∷ []) vfs_init-IsValid

run-keeps_files_example :
    file_at (run opened (close 8 0 ∷ write 9 0 5 ∷ mount mnt 3 0 ∷ [])) 0 ≡ file_at opened 0
unfolding run step handle_open handle_mount find_mount find_mount_from mount_matches starts_with
    alloc_file first_index open_file add_mount vfs_init
run-keeps_files_example =
    run-keeps_files opened (close 8 0 ∷ write 9 0 5 ∷ mount mnt 3 0 ∷ []) 0 run-open_example refl (
      (λ e. absurd (omega (arith, e))),
      ((λ e. absurd (omega (arith, e))), ((λ e. absurd (omega (arith, e))), tt)),
    )

find_mount_lem_example : FindsMount opened.mounts mnt_a (find_mount opened mnt_a)
find_mount_lem_example = find_mount_lem opened mnt_a

handle_open_lem_example :
    let (after, reply) = handle_open opened 8 mnt_a 0 in Opens opened 8 mnt_a 0 after reply
handle_open_lem_example = handle_open_lem {vfs = opened} run-open_example 8 mnt_a 0

handle_close_lem_example :
    let (after, code) = handle_close opened 7 0 in Closes opened 7 0 after code
handle_close_lem_example = handle_close_lem {vfs = opened} run-open_example 7 0

get_or-free : (n k : ℕ) → (get_or (replicate n empty_mount) k empty_mount).fs_endpoint ≡ 0
get_or-free n k = rw (get_or-replicate n k empty_mount) refl

-- After the only mount, at "/", the path "/t" is not found.
abbrev root_only : Vfs
root_only = (handle_mount vfs_init (slash ∷ []) 100 0).0

handle_open-root_mount_example : (handle_open root_only 1 (slash ∷ 116 ∷ []) 0).1 ≡ error e_noent
unfolding handle_mount find_mount find_mount_from mount_matches starts_with first_index add_mount
    vfs_init
handle_open-root_mount_example =
    handle_open-root_mount root_only 1 116 [] 0 (λ e. absurd (omega (arith, e)))
      (λ e. absurd (omega (arith, e))) roots
  where
    roots :
        (k : ℕ)
        → (get_or root_only.mounts k empty_mount).fs_endpoint ≢ 0
        → (get_or root_only.mounts k empty_mount).path ≡ slash ∷ []
    roots zero h = refl
    roots (suc k) h = absurd (h (get_or-free 15 k))

opens_first : (handle_open opened 8 mnt_a 0).1 ≡ value 1
unfolding run step handle_open handle_mount find_mount find_mount_from mount_matches starts_with
    alloc_file first_index open_file add_mount vfs_init
opens_first = refl
