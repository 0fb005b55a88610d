-- ===== src/Ipc/Lost.antt =====
-- A thread that sleeps in no queue and for no call, and the parts of a step that keep it so.

use ocean_linux.Ipc.Call.{links_to}
use ocean_linux.Ipc.Lifecycle.{contains}
use ocean_linux.Ipc.Steps.{Step, send_step, recv_step, wake_step, call_check_step}
use ocean_linux.Ipc.{
  hand_over, link_call, unlink_wait, wake, Ipc, Message, Endpoint, Thread, set_endpoint, set_thread,
  ipc_err_dead, take_over, copy_message, start_wait, reject, ipc_ok, ipc_err_nopartner, word_mod,
  ipc_op_call,
}
use ocean_linux.Base.{
  ℕ, List, ◌≡◌, ◌∷◌, ◌≢◌, ap, [], false, ◌∙◌, ℕ_discrete, ◌++◌, sym, true, arith, refl, some, ◌+◌,
  ◌%◌, ◌==◌, both_branches,
}

-- The thread may not run, waits in no queue, and is owed no reply.
pub record Lost (s : Ipc) (t : ℕ) : Type 0 where
  pub asleep : (s.threads t).running ≡ false
  pub sends_nowhere : (ep : ℕ) → contains t (s.endpoints ep).send_queue ≡ false
  pub receives_nowhere : (ep : ℕ) → contains t (s.endpoints ep).recv_queue ≡ false
  pub not_owed : (u : ℕ) → links_to (s.threads u).ipc_caller t ≡ false

-- A step that is not the thread's own send, receive or call, and not a wake_step of it.
abbrev pub IsOther : ℕ → Step → Type 0
IsOther t (send_step has_memory self ep msg op) = self ≢ t
IsOther t (recv_step has_memory self ep msg) = self ≢ t
IsOther t (wake_step u) = u ≢ t
IsOther t (call_check_step self) = self ≢ t
IsOther t _ = Unit

abbrev pub AllOther : ℕ → List Step → Type 0
AllOther t [] = Unit
AllOther t (x ∷ xs) = IsOther t x × AllOther t xs

-- One thread of the table changes.
module _ {s : Ipc} {t : ℕ} (l : Lost s t) (u : ℕ) (thread : Thread)
    (runs : u ≡ t → thread.running ≡ false) (links : links_to thread.ipc_caller t ≡ false) where
  pub set_thread-Lost : Lost (set_thread s u thread) t
  set_thread-Lost = record {
    asleep = elim (ℕ_discrete u t) [
      | yes same ↦ ground (arith, same, runs same)
      | no other ↦ ground (arith, other, l.asleep)
    ];
    sends_nowhere = l.sends_nowhere;
    receives_nowhere = l.receives_nowhere;
    not_owed = λ v. ground (arith, l.not_owed v, links);
  }

-- One endpoint changes.
module _ {s : Ipc} {t : ℕ} (l : Lost s t) (ep : ℕ) (endpoint : Endpoint)
    (sends : contains t endpoint.send_queue ≡ false)
    (receives : contains t endpoint.recv_queue ≡ false) where
  pub set_endpoint-Lost : Lost (set_endpoint s ep endpoint) t
  set_endpoint-Lost = record {
    asleep = l.asleep;
    sends_nowhere = λ k. ground (arith, l.sends_nowhere k, sends);
    receives_nowhere = λ k. ground (arith, l.receives_nowhere k, receives);
    not_owed = l.not_owed;
  }

-- Neither table changes.
module _ {s : Ipc} {t : ℕ} (l : Lost s t) (after : Ipc) (threads : after.threads ≡ s.threads)
    (endpoints : after.endpoints ≡ s.endpoints) where
  pub same_tables-Lost : Lost after t
  same_tables-Lost = record {
    asleep = ap (λ (f : ℕ → Thread). (f t).running) threads ∙ l.asleep;
    sends_nowhere =
        λ k. ap (λ (f : ℕ → Endpoint). contains t (f k).send_queue) endpoints ∙ l.sends_nowhere k;
    receives_nowhere = λ k.
        ap (λ (f : ℕ → Endpoint). contains t (f k).recv_queue) endpoints ∙ l.receives_nowhere k;
    not_owed = λ u. ap (λ (f : ℕ → Thread). links_to (f u).ipc_caller t) threads ∙ l.not_owed u;
  }

pub wake-Lost : {s : Ipc} {t : ℕ} → Lost s t → (u : ℕ) → u ≢ t → Lost (wake s u) t
unfolding wake
wake-Lost {s} l u other =
    set_thread-Lost l u (record (s.threads u) { running = true }) (λ same. absurd (other same))
      (l.not_owed u)

pub contains-append :
    (t u : ℕ) (ts : List ℕ) → contains t ts ≡ false → u ≢ t → contains t (ts ++ (u ∷ [])) ≡ false
contains-append t u [] h other = ground (arith, other)
contains-append t u (x ∷ xs) h other = ground (arith, h, contains-append t u xs)

pub contains-unlink_wait :
    (t u : ℕ) (ts : List ℕ) → contains t ts ≡ false → contains t (unlink_wait u ts) ≡ false
unfolding unlink_wait
contains-unlink_wait t u [] h = refl
contains-unlink_wait t u (x ∷ xs) h = elim (ℕ_discrete x u) [
  | yes same ↦ ground (arith, same, h)
  | no other ↦ ground (arith, other, h, contains-unlink_wait t u xs)
]

-- The first of a queue is another thread, and the rest holds only others.
pub first_other :
    (t u : ℕ) (us ts : List ℕ)
    → ts ≡ u ∷ us
    → contains t ts ≡ false
    → (u ≢ t) × (contains t us ≡ false)
first_other t u us ts e h =
    let h' : contains t (u ∷ us) ≡ false = ap (contains t) (sym e) ∙ h in
    (λ same. absurd (ground (arith, same, h')), ground (arith, h'))

-- A thread's record, changed in other fields.
module _ {s : Ipc} {t : ℕ} (l : Lost s t) (u : ℕ) where
  pub own : u ≡ t → (s.threads u).running ≡ false
  own same = ap (λ v. (s.threads v).running) same ∙ l.asleep

link_call-Lost :
    {s : Ipc} {t : ℕ}
    → Lost s t
    → (caller server : ℕ) → caller ≢ t
    → Lost (link_call s caller server) t
unfolding link_call
link_call-Lost {s} {t} l caller server other =
    let linked : Thread = record (s.threads caller) {
      ipc_reply_pending = true;
      ipc_reply_result = ipc_err_dead;
      ipc_reply_server = some server;
    } in
    let l' = set_thread-Lost l caller linked (own l caller) (l.not_owed caller) in
    set_thread-Lost l' server _ (own l' server) (ground (arith, other))

pub hand_over-Lost :
    {s : Ipc} {t : ℕ}
    → Lost s t
    → (self ep receiver : ℕ) (rest : List ℕ) (msg : Message) (op : ℕ) → self ≢ t
    → receiver ≢ t
    → contains t rest ≡ false
    → Lost (hand_over s self ep receiver rest msg op) t
unfolding hand_over
hand_over-Lost {s} {t} l self ep receiver rest msg op other other' free =
    let thread = s.threads receiver in
    let waited : Thread = record thread {
      wait = record { msg = copy_message thread.wait.msg msg; operation = op; result = ipc_ok };
    } in
    let stored = set_thread s receiver waited in
    let endpoint : Endpoint = record (s.endpoints ep) {
      recv_queue = rest;
      msgs_sent = ((s.endpoints ep).msgs_sent + 1) % word_mod;
    } in
    let counted : Ipc = record (set_endpoint stored ep endpoint) {
      total_messages = (s.total_messages + 1) % word_mod;
      fast_path_count = (s.fast_path_count + 1) % word_mod;
    } in
    let l1 = set_thread-Lost l receiver waited (own l receiver) (l.not_owed receiver) in
    let l2 = set_endpoint-Lost l1 ep endpoint (l.sends_nowhere ep) free in
    let l3 = same_tables-Lost l2 counted refl refl in
    wake-Lost
      (both_branches (λ (x : Ipc). Lost x t) (op == ipc_op_call) (link_call counted self receiver)
        counted (link_call-Lost l3 self receiver other) l3)
      receiver other'

pub take_over-Lost :
    {s : Ipc} {t : ℕ}
    → Lost s t
    → (self ep sender : ℕ) (rest : List ℕ) → sender ≢ t
    → contains t rest ≡ false
    → Lost (take_over s self ep sender rest) t
unfolding take_over
take_over-Lost {s} {t} l self ep sender rest other free =
    let thread = s.threads sender in
    let waited : Thread = record thread { wait = record thread.wait { result = ipc_ok } } in
    let stored = set_thread s sender waited in
    let endpoint : Endpoint = record (s.endpoints ep) {
      send_queue = rest;
      msgs_received = ((s.endpoints ep).msgs_received + 1) % word_mod;
    } in
    let counted : Ipc = record (set_endpoint stored ep endpoint) {
      total_messages = (s.total_messages + 1) % word_mod;
    } in
    let l1 = set_thread-Lost l sender waited (own l sender) (l.not_owed sender) in
    let l2 = set_endpoint-Lost l1 ep endpoint free (l.receives_nowhere ep) in
    let l3 = same_tables-Lost l2 counted refl refl in
    wake-Lost
      (both_branches (λ (x : Ipc). Lost x t) (thread.wait.operation == ipc_op_call)
        (link_call counted sender self) counted (link_call-Lost l3 sender self other) l3)
      sender other

pub reject-Lost :
    {s : Ipc} {t : ℕ}
    → Lost s t
    → (ep sender : ℕ) (rest : List ℕ) (err : ℕ) → sender ≢ t
    → contains t rest ≡ false
    → Lost (reject s ep sender rest err) t
unfolding reject
reject-Lost {s} {t} l ep sender rest err other free =
    let thread = s.threads sender in
    let waited : Thread = record thread { wait = record thread.wait { result = err } } in
    let l1 = set_thread-Lost l sender waited (own l sender) (l.not_owed sender) in
    let l2 =
      set_endpoint-Lost l1 ep (record (s.endpoints ep) { send_queue = rest }) free
        (l.receives_nowhere ep) in
    wake-Lost l2 sender other

pub start_wait-Lost :
    {s : Ipc} {t : ℕ}
    → Lost s t
    → (self : ℕ) (msg : Message) (op : ℕ) → Lost (start_wait s self msg op) t
start_wait-Lost {s} l self msg op =
    set_thread-Lost l self
      (record (s.threads self) {
        wait = record { msg = msg; operation = op; result = ipc_err_nopartner };
      })
      (own l self) (l.not_owed self)
