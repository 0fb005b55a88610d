-- ===== src/Ipc/Asleep.antt =====
-- No history of the steps of other threads wakes a thread that sleeps in no queue and for no call.
use ocean_linux.Ipc.Rendezvous.{copy_between-SameBut}
use ocean_linux.Ipc.Call.{
  call_check, call_failed, call_result, ipc_reply, ipc_thread_cleanup, links_to, release_caller,
  release_server, store_reply,
}
use ocean_linux.Ipc.Steps.{
  Step, call_check_step, call_failed_step, call_result_step, cleanup_step, leave_step, recv_step,
  reply_step, run, send_step, sleep_step, step, wake_step,
}
use ocean_linux.Ipc.{
  Ipc, Message, Thread, copy_between, ipc_ok, ipc_op_recv, leave, msg_flag_nonblock, msg_has_flag,
  recv_enter, send_enter, set_thread, sleep,
}
use ocean_linux.Base.{
  Bool, Bool-cases, List, List-cases, Option-cases, [], ap, arith, both_branches, false, inl, inr,
  none, not, refl, some, sym, true, ℕ, ◌==◌, ◌∙◌, ◌∷◌, ◌≡◌, ◌≢◌,
}
use ocean_linux.Ipc.Lost.{
  AllOther, IsOther, Lost, contains-append, contains-unlink_wait, first_other, hand_over-Lost, own,
  reject-Lost, same_tables-Lost, set_endpoint-Lost, set_thread-Lost, start_wait-Lost,
  take_over-Lost, wake-Lost,
}

pub copied-Lost :
    {s : Ipc} {t : ℕ} → Lost s t → (a b : ℕ) (msg : Message) → Lost (copy_between s a b msg).0 t
copied-Lost {s} l a b msg =
    let same = copy_between-SameBut s a b msg in
    same_tables-Lost l (copy_between s a b msg).0 same.threads_same same.endpoints_same

send_enter-Lost :
    {s : Ipc} {t : ℕ}
    → Lost s t
    → (has_memory : Bool) (self ep : ℕ) (msg : Message) (op : ℕ) → self ≢ t
    → Lost (send_enter s has_memory self ep msg op).0 t
unfolding send_enter
send_enter-Lost {s} {t} l has_memory self ep msg op other =
    elim (Bool-cases (s.endpoints ep).dead) [
      | inl dead ↦ rw (dead, send_enter) l
      | inr live ↦ elim (List-cases (s.endpoints ep).recv_queue) [
        | inl none_waits ↦ elim (Bool-cases (msg_has_flag msg msg_flag_nonblock)) [
          | inl nonblock ↦ rw (live, none_waits, nonblock, send_enter) l
          | inr blocking ↦ elim (Bool-cases has_memory) [
            | inr empty ↦ rw (live, none_waits, blocking, empty, send_enter) l
            | inl full ↦
                rw (live, none_waits, blocking, full, send_enter)
                  (set_endpoint-Lost (start_wait-Lost l self msg op) ep _
                    (contains-append t self (s.endpoints ep).send_queue (l.sends_nowhere ep) other)
                    (l.receives_nowhere ep))
          ]
        ]
        | inr (receiver, rest, waits) ↦
            let first = first_other t receiver rest _ waits (l.receives_nowhere ep) in
            elim (Bool-cases ((copy_between s self receiver msg).1 == ipc_ok)) [
              | inr refused ↦ rw (live, waits, refused, send_enter) l
              | inl copied ↦
                  rw (live, waits, copied, send_enter)
                    (hand_over-Lost (copied-Lost l self receiver msg) self ep receiver rest msg op
                      other first.0 first.1)
            ]
      ]
    ]

recv_enter-Lost :
    {s : Ipc} {t : ℕ}
    → Lost s t
    → (has_memory : Bool) (self ep : ℕ) (msg : Message) → self ≢ t
    → Lost (recv_enter s has_memory self ep msg).0 t
unfolding recv_enter
recv_enter-Lost {s} {t} l has_memory self ep msg other = elim (Bool-cases (s.endpoints ep).dead) [
  | inl dead ↦ rw (dead, recv_enter) l
  | inr live ↦ elim (List-cases (s.endpoints ep).send_queue) [
    | inl none_waits ↦ elim (Bool-cases (msg_has_flag msg msg_flag_nonblock)) [
      | inl nonblock ↦ rw (live, none_waits, nonblock, recv_enter) l
      | inr blocking ↦ elim (Bool-cases has_memory) [
        | inr empty ↦ rw (live, none_waits, blocking, empty, recv_enter) l
        | inl full ↦
            rw (live, none_waits, blocking, full, recv_enter)
              (set_endpoint-Lost (start_wait-Lost l self msg ipc_op_recv) ep _ (l.sends_nowhere ep)
                (contains-append t self (s.endpoints ep).recv_queue (l.receives_nowhere ep) other))
      ]
    ]
    | inr (sender, rest, waits) ↦
        let first = first_other t sender rest _ waits (l.sends_nowhere ep) in
        let sent = (s.threads sender).wait.msg in
        elim (Bool-cases ((copy_between s sender self sent).1 == ipc_ok)) [
          | inr refused ↦
              rw (live, waits, refused, recv_enter)
                (reject-Lost l ep sender rest (copy_between s sender self sent).1 first.0 first.1)
          | inl copied ↦
              rw (live, waits, copied, recv_enter)
                (take_over-Lost (copied-Lost l sender self sent) self ep sender rest first.0
                  first.1)
        ]
  ]
]

store_reply-Lost :
    {s : Ipc} {t : ℕ}
    → Lost s t
    → (caller : ℕ) (msg : Message) (err : ℕ) → Lost (store_reply s caller msg err) t
unfolding store_reply
store_reply-Lost {s} {t} l caller msg err =
    set_thread-Lost l caller _
      (λ same.
        both_branches (λ (x : Thread). x.running ≡ false) (not (err == ipc_ok)) _ _
          (own l caller same) (own l caller same))
      (both_branches (λ (x : Thread). links_to x.ipc_caller t ≡ false) (not (err == ipc_ok)) _ _
        (l.not_owed caller) (l.not_owed caller))

-- A caller that is owed a reply is another thread.
caller_other :
    {s : Ipc} {t : ℕ}
    → Lost s t
    → (u caller : ℕ) → (s.threads u).ipc_caller ≡ some caller
    → caller ≢ t
caller_other {s} {t} l u caller e same =
    let linked : links_to (some caller) t ≡ false =
      ap (λ link. links_to link t) (sym e) ∙ l.not_owed u in
    absurd (ground (arith, same, linked))

ipc_reply-Lost :
    {s : Ipc} {t : ℕ} → Lost s t → (self : ℕ) (msg : Message) → Lost (ipc_reply s self msg).0 t
unfolding ipc_reply
ipc_reply-Lost {s} {t} l self msg = elim (Option-cases (s.threads self).ipc_caller) [
  | inl e ↦ rw (e, ipc_reply) l
  | inr (caller, e) ↦
      let detached = set_thread s self (record (s.threads self) { ipc_caller = none }) in
      let l1 =
        set_thread-Lost l self (record (s.threads self) { ipc_caller = none }) (own l self) refl in
      let other : caller ≢ t = caller_other l self caller e in
      let copy = copy_between detached self caller msg in
      rw (e, ipc_reply)
        (wake-Lost (store_reply-Lost (copied-Lost l1 self caller msg) caller msg copy.1) caller
          other)
]

release_caller-Lost : {s : Ipc} {t : ℕ} → Lost s t → (u : ℕ) → Lost (release_caller s u) t
unfolding release_caller
release_caller-Lost {s} {t} l u = elim (Option-cases (s.threads u).ipc_caller) [
  | inl e ↦ rw (e, release_caller) l
  | inr (caller, e) ↦
      let l1 = set_thread-Lost l u (record (s.threads u) { ipc_caller = none }) (own l u) refl in
      let other : caller ≢ t = caller_other l u caller e in
      rw (e, release_caller)
        (set_thread-Lost l1 caller _ (λ same. absurd (other same)) (l1.not_owed caller))
]

release_server-Lost : {s : Ipc} {t : ℕ} → Lost s t → (u : ℕ) → Lost (release_server s u) t
unfolding release_server
release_server-Lost {s} {t} l u = elim (Option-cases (s.threads u).ipc_reply_server) [
  | inl e ↦ rw (e, release_server) l
  | inr (server, e) ↦
      let detached = set_thread s u (record (s.threads u) { ipc_reply_server = none }) in
      let l1 =
        set_thread-Lost l u (record (s.threads u) { ipc_reply_server = none }) (own l u)
          (l.not_owed u) in
      rw (e, release_server)
        (both_branches (λ (x : Ipc). Lost x t) (links_to (detached.threads server).ipc_caller u)
          (set_thread detached server (record (detached.threads server) { ipc_caller = none }))
          detached
          (set_thread-Lost l1 server (record (detached.threads server) { ipc_caller = none })
            (own l1 server) refl)
          l1)
]

step-Lost : (s : Ipc) (t : ℕ) (x : Step) → IsOther t x → Lost s t → Lost (step s x) t
unfolding step call_failed call_result call_check sleep leave ipc_thread_cleanup
step-Lost s t (send_step has_memory self ep msg op) o l =
    send_enter-Lost l has_memory self ep msg op o
step-Lost s t (recv_step has_memory self ep msg) o l = recv_enter-Lost l has_memory self ep msg o
step-Lost s t (sleep_step u) o l =
    set_thread-Lost l u (record (s.threads u) { running = false }) (λ same. refl) (l.not_owed u)
step-Lost s t (wake_step u) o l = wake-Lost l u o
step-Lost s t (leave_step self ep) o l =
    set_endpoint-Lost l ep _ (contains-unlink_wait t self _ (l.sends_nowhere ep))
      (contains-unlink_wait t self _ (l.receives_nowhere ep))
step-Lost s t (call_failed_step self) o l =
    set_thread-Lost l self
      (record (s.threads self) { ipc_reply_pending = false; ipc_reply_server = none }) (own l self)
      (l.not_owed self)
step-Lost s t (call_check_step self) o l =
    both_branches (λ (x : Ipc × Bool). Lost x.0 t) (not (s.threads self).ipc_reply_pending)
      (set_thread s self (record (s.threads self) { running = true }), true)
      (set_thread s self (record (s.threads self) { running = false }), false)
      (set_thread-Lost l self (record (s.threads self) { running = true }) (λ same. absurd (o same))
        (l.not_owed self))
      (set_thread-Lost l self (record (s.threads self) { running = false }) (λ same. refl)
        (l.not_owed self))
step-Lost s t (call_result_step self msg) o l =
    set_thread-Lost l self (record (s.threads self) { ipc_reply_server = none }) (own l self)
      (l.not_owed self)
step-Lost s t (reply_step self msg) o l = ipc_reply-Lost l self msg
step-Lost s t (cleanup_step u) o l =
    let released = release_server (release_caller s u) u in
    let l1 = release_server-Lost (release_caller-Lost l u) u in
    set_thread-Lost l1 u (record (released.threads u) { ipc_reply_pending = false }) (own l1 u)
      (l1.not_owed u)

pub run-Lost : (s : Ipc) (t : ℕ) (xs : List Step) → AllOther t xs → Lost s t → Lost (run s xs) t
unfolding run
run-Lost s t [] o l = l
run-Lost s t (x ∷ xs) (o, os) l = run-Lost (step s x) t xs os (step-Lost s t x o l)
