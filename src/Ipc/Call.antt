-- ===== src/Ipc/Call.antt =====
-- kernel/ipc/message.c: calls, replies, and what a thread that exits leaves behind. A call is cut
-- where the thread gives up ipc_cc_lock and the endpoint's lock: the request is send_enter and
-- leave of Ipc with the operation `call`; then follow call_check, as often as the thread is
-- woken, and call_result.
use ocean_linux.Ipc.{
  Ipc, Message, set_thread, recv_enter, Progress, ipc_err_invalid, ipc_err_dead, copy_between,
  ipc_ok, wake,
}
use ocean_linux.Base.{ℕ, Option, Bool, none, if◌then◌else◌, some, false, not, ◌==◌, true}

-- ipc_call where the request failed.
unfoldable pub call_failed : Ipc → ℕ → Ipc
call_failed s self =
    set_thread s self
      (record (s.threads self) { ipc_reply_pending = false; ipc_reply_server = none })

-- One round of the wait: whether the reply is there. If not, the thread sleeps.
unfoldable pub call_check : Ipc → ℕ → Ipc × Bool
call_check s self =
    let thread = s.threads self in
    if not thread.ipc_reply_pending
    then (set_thread s self (record thread { running = true }), true)
    else (set_thread s self (record thread { running = false }), false)

-- The message and the result of ipc_call after the wait.
unfoldable pub call_result : Ipc → ℕ → Message → Ipc × Message × ℕ
call_result s self msg =
    let thread = s.threads self in
    let answer =
      (if thread.ipc_reply_result == ipc_ok
        then record msg { tag = thread.ipc_reply_tag; regs = thread.ipc_reply_regs }
        else msg) in
    (set_thread s self (record thread { ipc_reply_server = none }), answer, thread.ipc_reply_result)

-- The reply slots of the caller.
unfoldable pub store_reply : Ipc → ℕ → Message → ℕ → Ipc
store_reply s caller msg slice_err =
    let thread = s.threads caller in
    set_thread s caller (
      if not (slice_err == ipc_ok)
      then record thread { ipc_reply_result = slice_err; ipc_reply_pending = false }
      else record thread {
        ipc_reply_result = ipc_ok;
        ipc_reply_tag = msg.tag;
        ipc_reply_regs = msg.regs;
        ipc_reply_pending = false;
      })

unfoldable pub ipc_reply : Ipc → ℕ → Message → Ipc × ℕ
unfolding store_reply
ipc_reply s self msg = elim (s.threads self).ipc_caller [
  | none ↦ (s, ipc_err_invalid)
  | some caller ↦
      let detached = set_thread s self (record (s.threads self) { ipc_caller = none }) in
      let (copied, slice_err) = copy_between detached self caller msg in
      (wake (store_reply copied caller msg slice_err) caller, ipc_ok)
]

-- Up to the sleep of the receive.
unfoldable pub reply_recv_enter : Ipc → Bool → ℕ → ℕ → Message → Ipc × Message × Progress
unfolding ipc_reply recv_enter
reply_recv_enter s has_memory self ep msg =
    recv_enter (ipc_reply s self msg).0 has_memory self ep msg

-- Whether a link leads to the thread.
abbrev pub links_to : Option ℕ → ℕ → Bool
links_to link t = elim link [ none ↦ false | some u ↦ u == t ]

-- The thread owes a reply.
unfoldable pub release_caller : Ipc → ℕ → Ipc
release_caller s t = elim (s.threads t).ipc_caller [
  | none ↦ s
  | some caller ↦
      let detached = set_thread s t (record (s.threads t) { ipc_caller = none }) in
      let thread = detached.threads caller in
      set_thread detached caller (record thread {
        ipc_reply_server =
            (if links_to thread.ipc_reply_server t then none else thread.ipc_reply_server);
        ipc_reply_result = ipc_err_dead;
        ipc_reply_pending = false;
        running = true;
      })
]

-- The thread waits for a reply.
unfoldable pub release_server : Ipc → ℕ → Ipc
release_server s t = elim (s.threads t).ipc_reply_server [
  | none ↦ s
  | some server ↦
      let detached = set_thread s t (record (s.threads t) { ipc_reply_server = none }) in
      let thread = detached.threads server in
      if links_to thread.ipc_caller t
      then set_thread detached server (record thread { ipc_caller = none })
      else detached
]

unfoldable pub ipc_thread_cleanup : Ipc → ℕ → Ipc
unfolding release_caller release_server
ipc_thread_cleanup s t =
    let released = release_server (release_caller s t) t in
    set_thread released t (record (released.threads t) { ipc_reply_pending = false })
