-- ===== src/Vfs/Isolation.antt =====
-- Whole histories of requests.
use ocean_linux.Vfs.Effects.{sender_or, step-Effect}
use ocean_linux.Vfs.{Vfs, file_at}
use ocean_linux.Vfs.Requests.{run, Request, IsValid, in_use, step, Effect-IsValid, Effect-keeps}
use ocean_linux.Base.{refl, ℕ, List, ◌∷◌, ◌≢◌, ◌≡◌, suc, [], true, ap, ◌∙◌, subst, sym}

-- After any history of requests on a valid state the tables have their sizes and num_open_files
-- is the number of entries in use.
pub run-IsValid : (vfs : Vfs) (rs : List Request) → IsValid vfs → IsValid (run vfs rs)
unfolding run
run-IsValid vfs [] v = v
run-IsValid vfs (r ∷ rs) v = run-IsValid (step vfs r) rs (Effect-IsValid v (step-Effect v 0 r))

-- No request of the history comes from the process.
abbrev pub AllForeign : ℕ → List Request → Type 0
AllForeign pid [] = Unit
AllForeign pid (r ∷ rs) = (pid ≢ sender_or (suc pid) r) × AllForeign pid rs

-- A file that a process holds open stays as it is, its offset and flags included, through any
-- history of requests of the server and of other processes.
pub run-keeps_files :
    (vfs : Vfs) (rs : List Request) (fd : ℕ)
    → IsValid vfs
    → in_use (file_at vfs fd) ≡ true
    → AllForeign (file_at vfs fd).owner_pid rs
    → file_at (run vfs rs) fd ≡ file_at vfs fd
unfolding run
run-keeps_files vfs [] fd v used foreign = refl
run-keeps_files vfs (r ∷ rs) fd v used (other, foreign) =
    let e = step-Effect v (suc (file_at vfs fd).owner_pid) r in
    let same = Effect-keeps v e fd used other in
    run-keeps_files (step vfs r) rs fd (Effect-IsValid v e) (ap in_use same ∙ used)
      (subst (λ f. AllForeign f.owner_pid rs) (sym same) foreign)
    ∙ same
