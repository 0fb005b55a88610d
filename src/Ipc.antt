-- ===== src/Ipc.antt =====
-- kernel/ipc/message.c: synchronous messages between threads, with struct ipc_message,
-- struct ipc_endpoint and struct ipc_wait of kernel/include/ocean/ipc.h and the call links of
-- struct thread. Threads, endpoints and processes are named by numbers. A thread has one wait at a
-- time, so a queue of waits is the list of the threads that own them; `partner` of a queued wait
-- is its owner, and it is not read afterwards, so it is left out. A function that blocks is cut
-- where it gives up the endpoint's lock: the part before, which may end in `blocked`, the sleep,
-- and the part after the thread was woken. Whether kmalloc has memory for a wait is an argument.
-- The capabilities of a message, of which the source transfers none, are left out.
pub mod Call
mod Tests
pub mod Lost
pub mod Asleep
pub mod Forgotten
pub mod Rendezvous
pub mod Lifecycle
pub mod Steps
pub mod Exchange
pub mod Registry
use ocean_linux.Base.{
  ℕ, Option, List, true, false, if◌then◌else◌, none, Bool, ◌^◌, not, ◌+◌, ◌==◌, some, take, ◌∷◌,
  length, [], bit_and, ◌%◌, ◌++◌, get_or, ltb, drop, ◌/◌,
}

pub record Message : Type 0 where
  pub tag : ℕ
  pub regs : List ℕ
  pub buffer : Option (List ℕ)

pub record Wait : Type 0 where
  pub msg : Message
  pub operation : ℕ
  pub result : ℕ

pub record Thread : Type 0 where
  pub running : Bool
  pub process : Option ℕ
  pub wait : Wait
  pub ipc_reply_pending : Bool
  pub ipc_reply_result : ℕ
  pub ipc_reply_tag : ℕ
  pub ipc_reply_regs : List ℕ
  pub ipc_reply_server : Option ℕ
  pub ipc_caller : Option ℕ

pub record Endpoint : Type 0 where
  pub id : ℕ
  pub dead : Bool
  pub listed : Bool
  pub send_queue : List ℕ
  pub recv_queue : List ℕ
  pub refcount : ℕ
  pub owner : Option ℕ
  pub bound_thread : Option ℕ
  pub msgs_sent : ℕ
  pub msgs_received : ℕ

-- A process's window is its page, if it has one.
pub record Ipc : Type 0 where
  pub threads : ℕ → Thread
  pub endpoints : ℕ → Endpoint
  pub windows : ℕ → Option (List ℕ)
  pub total_messages : ℕ
  pub fast_path_count : ℕ

abbrev pub ipc_ok : ℕ
ipc_ok = 0

abbrev pub ipc_err_invalid : ℕ
ipc_err_invalid = 1

abbrev pub ipc_err_dead : ℕ
ipc_err_dead = 2

abbrev pub ipc_err_overflow : ℕ
ipc_err_overflow = 5

abbrev pub ipc_err_nopartner : ℕ
ipc_err_nopartner = 6

abbrev pub ipc_err_busy : ℕ
ipc_err_busy = 7

abbrev pub ipc_op_send : ℕ
ipc_op_send = 1

abbrev pub ipc_op_recv : ℕ
ipc_op_recv = 2

abbrev pub ipc_op_call : ℕ
ipc_op_call = 3

abbrev pub msg_flag_nonblock : ℕ
msg_flag_nonblock = 8

abbrev pub msg_flag_slice : ℕ
msg_flag_slice = 16

abbrev pub window_size : ℕ
window_size = 4096

abbrev pub word_mod : ℕ
word_mod = 2 ^ 64

-- MSG_FLAGS(tag) & flag
abbrev pub msg_has_flag : Message → ℕ → Bool
msg_has_flag msg flag = not (bit_and (msg.tag / 2 ^ 26 % 2 ^ 8) flag == 0)

-- A store into an array.
abbrev pub store {ℓ} : {A : Type ℓ} → (ℕ → A) → ℕ → A → ℕ → A
store f i v j = if i == j then v else f j

abbrev pub set_thread : Ipc → ℕ → Thread → Ipc
set_thread s t thread = record s { threads = store s.threads t thread }

abbrev pub set_endpoint : Ipc → ℕ → Endpoint → Ipc
set_endpoint s ep endpoint = record s { endpoints = store s.endpoints ep endpoint }

-- sched_wakeup, as far as it concerns whether the thread may run.
unfoldable pub wake : Ipc → ℕ → Ipc
wake s t = set_thread s t (record (s.threads t) { running = true })

-- thread_sleep, up to the point where the thread stops.
unfoldable pub sleep : Ipc → ℕ → Ipc
sleep s t = set_thread s t (record (s.threads t) { running = false })

-- Bytes from `off` on are replaced.
abbrev pub splice : List ℕ → ℕ → List ℕ → List ℕ
splice old off new = take off old ++ (new ++ drop (off + length new) old)

unfoldable pub copy_ipc_slice : Ipc → ℕ → ℕ → ℕ → ℕ → Ipc × ℕ
copy_ipc_slice s src_proc dst_proc off len =
    if len == 0
    then (s, ipc_ok)
    else if ltb window_size (off + len)
    then (s, ipc_err_overflow)
    else elim (s.windows src_proc) [
      | none ↦ (s, ipc_err_invalid)
      | some src ↦ elim (s.windows dst_proc) [
        | none ↦ (s, ipc_err_invalid)
        | some dst ↦ (
          record s {
            windows = store s.windows dst_proc (some (splice dst off (take len (drop off src))));
          },
          ipc_ok,
        )
      ]
    ]

-- The offset is in the upper half of the first register, the length in the lower.
unfoldable pub maybe_copy_window : Ipc → ℕ → ℕ → Message → Ipc × ℕ
unfolding copy_ipc_slice
maybe_copy_window s sender_proc receiver_proc msg =
    if not (msg_has_flag msg msg_flag_slice)
    then (s, ipc_ok)
    else copy_ipc_slice s sender_proc receiver_proc (get_or msg.regs 0 0 / 2 ^ 32 % 2 ^ 32)
        (get_or msg.regs 0 0 % 2 ^ 32)

-- The window slice of a message between two threads, of which one may have no process.
unfoldable pub copy_between : Ipc → ℕ → ℕ → Message → Ipc × ℕ
unfolding maybe_copy_window
copy_between s sender receiver msg =
    let refused = (if msg_has_flag msg msg_flag_slice then (s, ipc_err_invalid) else (s, ipc_ok)) in
    elim (s.threads sender).process [
      | none ↦ refused
      | some sender_proc ↦ elim (s.threads receiver).process [
        | none ↦ refused
        | some receiver_proc ↦ maybe_copy_window s sender_proc receiver_proc msg
      ]
    ]

unfoldable pub copy_message : Message → Message → Message
copy_message dst src = record dst {
  tag = src.tag;
  regs = src.regs;
  buffer = elim src.buffer [
    | none ↦ dst.buffer
    | some from ↦ elim dst.buffer [
      | none ↦ none
      | some to ↦ some (take (length to) from ++ drop (length from) to)
    ]
  ];
}

unfoldable pub link_call : Ipc → ℕ → ℕ → Ipc
link_call s caller server =
    let linked = set_thread s caller (record (s.threads caller) {
      ipc_reply_pending = true;
      ipc_reply_result = ipc_err_dead;
      ipc_reply_server = some server;
    }) in
    set_thread linked server (record (linked.threads server) { ipc_caller = some caller })

-- How the first part of a function ends: with a result, or with the thread in a queue.
pub data Progress : Type 0 where
  finished : ℕ → Progress
  blocked : Progress

-- The direct transfer to the receiver that waits first.
unfoldable pub hand_over : Ipc → ℕ → ℕ → ℕ → List ℕ → Message → ℕ → Ipc
unfolding copy_message link_call wake
hand_over s self ep receiver rest msg op =
    let thread = s.threads receiver in
    let stored = set_thread s receiver (record thread {
      wait = record { msg = copy_message thread.wait.msg msg; operation = op; result = ipc_ok };
    }) in
    let endpoint = stored.endpoints ep in
    let counted =
      record (set_endpoint stored ep
        (record endpoint { recv_queue = rest; msgs_sent = (endpoint.msgs_sent + 1) % word_mod })) {
          total_messages = (s.total_messages + 1) % word_mod;
          fast_path_count = (s.fast_path_count + 1) % word_mod;
        } in
    wake (if op == ipc_op_call then link_call counted self receiver else counted) receiver

-- The new wait of a thread.
abbrev pub start_wait : Ipc → ℕ → Message → ℕ → Ipc
start_wait s self msg op = set_thread s self (record (s.threads self) {
  wait = record { msg = msg; operation = op; result = ipc_err_nopartner };
})

-- ipc_send_op up to the sleep.
unfoldable pub send_enter : Ipc → Bool → ℕ → ℕ → Message → ℕ → Ipc × Progress
unfolding copy_between hand_over
send_enter s has_memory self ep msg op =
    let endpoint = s.endpoints ep in
    if endpoint.dead then (s, finished ipc_err_dead) else elim endpoint.recv_queue [
      | receiver ∷ rest ↦
          let (copied, slice_err) = copy_between s self receiver msg in
          if not (slice_err == ipc_ok)
          then (s, finished slice_err)
          else (hand_over copied self ep receiver rest msg op, finished ipc_ok)
      | [] ↦
          if msg_has_flag msg msg_flag_nonblock
          then (s, finished ipc_err_nopartner)
          else if not has_memory
          then (s, finished ipc_err_busy)
          else (
            set_endpoint (start_wait s self msg op) ep
                (record endpoint { send_queue = endpoint.send_queue ++ (self ∷ []) }),
            blocked,
          )
    ]

-- The direct transfer from the sender that waits first: its message is stored in `msg`.
unfoldable pub take_over : Ipc → ℕ → ℕ → ℕ → List ℕ → Ipc
unfolding link_call wake
take_over s self ep sender rest =
    let thread = s.threads sender in
    let stored =
      set_thread s sender (record thread { wait = record thread.wait { result = ipc_ok } }) in
    let endpoint = stored.endpoints ep in
    let counted =
      record (set_endpoint stored ep (record endpoint {
        send_queue = rest;
        msgs_received = (endpoint.msgs_received + 1) % word_mod;
      })) { total_messages = (s.total_messages + 1) % word_mod } in
    wake (if thread.wait.operation == ipc_op_call then link_call counted sender self else counted)
      sender

-- The sender's message does not get through: it is woken with the error.
unfoldable pub reject : Ipc → ℕ → ℕ → List ℕ → ℕ → Ipc
unfolding wake
reject s ep sender rest err =
    let thread = s.threads sender in
    let stored =
      set_thread s sender (record thread { wait = record thread.wait { result = err } }) in
    wake (set_endpoint stored ep (record (stored.endpoints ep) { send_queue = rest })) sender

-- ipc_recv up to the sleep, with what `msg` holds afterwards.
unfoldable pub recv_enter : Ipc → Bool → ℕ → ℕ → Message → Ipc × Message × Progress
unfolding copy_between take_over reject copy_message
recv_enter s has_memory self ep msg =
    let endpoint = s.endpoints ep in
    if endpoint.dead then (s, msg, finished ipc_err_dead) else elim endpoint.send_queue [
      | sender ∷ rest ↦
          let sent = (s.threads sender).wait.msg in
          let (copied, slice_err) = copy_between s sender self sent in
          if not (slice_err == ipc_ok)
          then (reject s ep sender rest slice_err, msg, finished slice_err)
          else (take_over copied self ep sender rest, copy_message msg sent, finished ipc_ok)
      | [] ↦
          if msg_has_flag msg msg_flag_nonblock
          then (s, msg, finished ipc_err_nopartner)
          else if not has_memory
          then (s, msg, finished ipc_err_busy)
          else (
            set_endpoint (start_wait s self msg ipc_op_recv) ep
                (record endpoint { recv_queue = endpoint.recv_queue ++ (self ∷ []) }),
            msg,
            blocked,
          )
    ]

-- list_del_init of a thread's wait, if it is still in the queue.
unfoldable pub unlink_wait : ℕ → List ℕ → List ℕ
unlink_wait t [] = []
unlink_wait t (u ∷ us) = if u == t then us else u ∷ unlink_wait t us

-- ipc_send_op and ipc_recv after the thread was woken: the queues, and the result.
unfoldable pub leave : Ipc → ℕ → ℕ → Ipc × ℕ
unfolding unlink_wait
leave s self ep =
    let endpoint = s.endpoints ep in
    (
      set_endpoint s ep (record endpoint {
        send_queue = unlink_wait self endpoint.send_queue;
        recv_queue = unlink_wait self endpoint.recv_queue;
      }),
      (s.threads self).wait.result,
    )
