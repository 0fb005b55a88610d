-- ===== src/Ipc/Steps.antt =====
-- Histories of the steps of all threads, in any order.
use ocean_linux.Ipc.Rendezvous.{
  AllOneSided, send_enter-AllOneSided, recv_enter-AllOneSided, copy_between-SameBut,
  leave-AllOneSided, same_endpoints,
}
use ocean_linux.Ipc.Call.{
  call_check, ipc_thread_cleanup, ipc_reply, store_reply, release_caller, call_failed, call_result,
  release_server,
}
use ocean_linux.Ipc.{sleep, Message, Ipc, wake, send_enter, recv_enter, leave, set_thread}
use ocean_linux.Base.{ℕ, Bool, List, ◌≡◌, arith, Option-cases, ◌∷◌, ◌∙◌, [], inl, inr, none, refl}

-- A step of a thread: the parts of the functions that run under a lock, the sleep and the wake-up.
pub data Step : Type 0 where
  send_step : Bool → ℕ → ℕ → Message → ℕ → Step
  recv_step : Bool → ℕ → ℕ → Message → Step
  sleep_step wake_step : ℕ → Step
  leave_step : ℕ → ℕ → Step
  call_failed_step call_check_step : ℕ → Step
  call_result_step reply_step : ℕ → Message → Step
  cleanup_step : ℕ → Step

unfoldable pub step : Ipc → Step → Ipc
step s (send_step has_memory self ep msg op) = (send_enter s has_memory self ep msg op).0
step s (recv_step has_memory self ep msg) = (recv_enter s has_memory self ep msg).0
step s (sleep_step t) = sleep s t
step s (wake_step t) = wake s t
step s (leave_step self ep) = (leave s self ep).0
step s (call_failed_step self) = call_failed s self
step s (call_check_step self) = (call_check s self).0
step s (call_result_step self msg) = (call_result s self msg).0
step s (reply_step self msg) = (ipc_reply s self msg).0
step s (cleanup_step t) = ipc_thread_cleanup s t

unfoldable pub run : Ipc → List Step → Ipc
run s [] = s
run s (x ∷ xs) = run (step s x) xs

call_check-endpoints : (s : Ipc) (self : ℕ) → (call_check s self).0.endpoints ≡ s.endpoints
unfolding call_check
call_check-endpoints s self = ground arith

ipc_reply-endpoints :
    (s : Ipc) (self : ℕ) (msg : Message) → (ipc_reply s self msg).0.endpoints ≡ s.endpoints
unfolding ipc_reply store_reply wake
ipc_reply-endpoints s self msg = elim (Option-cases (s.threads self).ipc_caller) [
  | inl e ↦ rw (e, ipc_reply) refl
  | inr (caller, e) ↦
      rw (e, ipc_reply)
        (copy_between-SameBut (set_thread s self (record (s.threads self) { ipc_caller = none }))
          self caller msg).endpoints_same
]

ipc_thread_cleanup-endpoints : (s : Ipc) (t : ℕ) → (ipc_thread_cleanup s t).endpoints ≡ s.endpoints
unfolding ipc_thread_cleanup release_caller release_server
ipc_thread_cleanup-endpoints s t = release_server_same (release_caller s t) ∙ release_caller_same
  where
    release_server_same : (r : Ipc) → (release_server r t).endpoints ≡ r.endpoints
    release_server_same r = ground arith

    release_caller_same : (release_caller s t).endpoints ≡ s.endpoints
    release_caller_same = ground arith

step-AllOneSided : (s : Ipc) (x : Step) → AllOneSided s → AllOneSided (step s x)
unfolding step sleep wake call_failed call_result
step-AllOneSided s (send_step has_memory self ep msg op) all =
    send_enter-AllOneSided s has_memory self ep msg op all
step-AllOneSided s (recv_step has_memory self ep msg) all =
    recv_enter-AllOneSided s has_memory self ep msg all
step-AllOneSided s (sleep_step t) all = all
step-AllOneSided s (wake_step t) all = all
step-AllOneSided s (leave_step self ep) all = leave-AllOneSided s self ep all
step-AllOneSided s (call_failed_step self) all = all
step-AllOneSided s (call_check_step self) all =
    same_endpoints s (call_check s self).0 (call_check-endpoints s self) all
step-AllOneSided s (call_result_step self msg) all = all
step-AllOneSided s (reply_step self msg) all =
    same_endpoints s (ipc_reply s self msg).0 (ipc_reply-endpoints s self msg) all
step-AllOneSided s (cleanup_step t) all =
    same_endpoints s (ipc_thread_cleanup s t) (ipc_thread_cleanup-endpoints s t) all

-- In every history of steps of any threads, no endpoint ever has a sender and a receiver that wait
-- for each other.
pub run-AllOneSided : (s : Ipc) (xs : List Step) → AllOneSided s → AllOneSided (run s xs)
unfolding run
run-AllOneSided s [] all = all
run-AllOneSided s (x ∷ xs) all = run-AllOneSided (step s x) xs (step-AllOneSided s x all)
