-- ===== src/Ipc/Forgotten.antt =====
-- The lost wake-up of a sender, and why nothing makes up for it.
use ocean_linux.Ipc.Exchange.{Receives, recv_enter_lem}
use ocean_linux.Ipc.Rendezvous.{SameBut, copy_between-SameBut}
use ocean_linux.Ipc.Lifecycle.{contains}
use ocean_linux.Ipc.Asleep.{run-Lost}
use ocean_linux.Ipc.Lost.{Lost, AllOther}
use ocean_linux.Ipc.Call.{links_to}
use ocean_linux.Ipc.Steps.{run, Step}
use ocean_linux.Ipc.{
  Ipc, sleep, Message, take_over, wake, copy_between, ipc_op_call, Thread, ipc_ok, Endpoint, store,
  finished, recv_enter, Progress, ipc_err_dead, blocked,
}
use ocean_linux.Base.{
  ℕ, ◌≡◌, ◌∷◌, List, inl, [], ◌≢◌, inr, false, both_branches, ◌==◌, refl, arith, ap, ℕ_discrete,
  sym, Bool, ◌∙◌, true, if◌then◌else◌, Bool-cases, subst,
}

-- A sender that waits for a receiver: once, on one endpoint, with a message that is not a call.
pub record Waiting (s : Ipc) (ep sender : ℕ) : Type 0 where
  pub alone : (s.endpoints ep).send_queue ≡ sender ∷ []
  pub nowhere_else : (k : ℕ) → ep ≢ k → contains sender (s.endpoints k).send_queue ≡ false
  pub receives_nowhere : (k : ℕ) → contains sender (s.endpoints k).recv_queue ≡ false
  pub no_call : ((s.threads sender).wait.operation == ipc_op_call) ≡ false
  pub not_owed : (u : ℕ) → links_to (s.threads u).ipc_caller sender ≡ false

NotOwed : (ℕ → Thread) → ℕ → Type 0
NotOwed threads t = (u : ℕ) → links_to (threads u).ipc_caller t ≡ false

store-NotOwed :
    (threads : ℕ → Thread) (t k : ℕ) (new : Thread)
    → NotOwed threads t
    → links_to new.ipc_caller t ≡ false
    → NotOwed (store threads k new) t
unfolding NotOwed
store-NotOwed threads t k new all one u =
    both_branches (λ (x : Thread). links_to x.ipc_caller t ≡ false) (k == u) new (threads u) one
      (all u)

-- The endpoint from whose queue the sender was taken.
store-empty :
    (endpoints : ℕ → Endpoint) (t ep k : ℕ) (new : Endpoint)
    → new.send_queue ≡ []
    → ((j : ℕ) → ep ≢ j → contains t (endpoints j).send_queue ≡ false)
    → contains t (store endpoints ep new k).send_queue ≡ false
store-empty endpoints t ep k new empty others = elim (ℕ_discrete ep k) [
  | yes here ↦ let e : (ep == k) ≡ true = ground (arith, here) in rw e (ap (contains t) empty)
  | no other ↦ let e : (ep == k) ≡ false = ground (arith, other) in rw e (others k other)
]

asleep_at : (k : ℕ) (x y : Thread) → x.running ≡ false → (if k == k then x else y).running ≡ false
asleep_at k x y h = let e : (k == k) ≡ true = ground arith in rw e h

-- The state after the receive, in which the sender goes to sleep.
taken-Lost :
    (s : Ipc) (self ep sender : ℕ)
    → Waiting s ep sender
    → Lost (sleep (take_over s self ep sender []) sender) sender
unfolding sleep take_over wake NotOwed
taken-Lost s self ep sender w =
    rw (w.no_call, take_over)
      (record {
        asleep = asleep_at sender _ _ refl;
        sends_nowhere = λ k. store-empty s.endpoints sender ep k _ refl w.nowhere_else;
        receives_nowhere = λ k.
            both_branches (λ (x : Endpoint). contains sender x.recv_queue ≡ false) (ep == k) _
              (s.endpoints k) (w.receives_nowhere ep) (w.receives_nowhere k);
        not_owed =
            let first =
              store-NotOwed s.threads sender sender waited w.not_owed (w.not_owed sender) in
            let second = store-NotOwed _ sender sender _ first (first sender) in
            store-NotOwed _ sender sender _ second (second sender);
      })
  where
    waited : Thread
    waited = record (s.threads sender) { wait = record (s.threads sender).wait { result = ipc_ok } }

finished-ok : (a b : ℕ) → finished a ≡ finished b → a ≡ b
finished-ok a b e = ap result_of e
  where
    result_of : Progress → ℕ
    result_of blocked = 0
    result_of (finished n) = n

Waiting-same :
    {s after : Ipc} (ep sender : ℕ)
    → SameBut s after
    → Waiting s ep sender
    → Waiting after ep sender
Waiting-same {s} {after} ep sender same w = record {
  alone = ap (λ (f : ℕ → Endpoint). (f ep).send_queue) same.endpoints_same ∙ w.alone;
  nowhere_else = λ k other.
      ap (λ (f : ℕ → Endpoint). contains sender (f k).send_queue) same.endpoints_same
      ∙ w.nowhere_else k other;
  receives_nowhere = λ k.
      ap (λ (f : ℕ → Endpoint). contains sender (f k).recv_queue) same.endpoints_same
      ∙ w.receives_nowhere k;
  no_call =
      ap (λ (f : ℕ → Thread). (f sender).wait.operation == ipc_op_call) same.threads_same
      ∙ w.no_call;
  not_owed = λ u.
      ap (λ (f : ℕ → Thread). links_to (f u).ipc_caller sender) same.threads_same ∙ w.not_owed u;
}

-- A receive that ends with IPC_OK, and then the sender's sleep.
received-Lost :
    (s : Ipc) (has_memory : Bool) (self ep sender : ℕ) (msg : Message)
    → Waiting s ep sender
    → (recv_enter s has_memory self ep msg).2 ≡ finished ipc_ok
    → Lost (sleep (recv_enter s has_memory self ep msg).0 sender) sender
unfolding recv_enter
received-Lost s has_memory self ep sender msg w done = elim (Bool-cases (s.endpoints ep).dead) [
  | inl dead ↦
      absurd
        (omega (arith, finished-ok ipc_err_dead ipc_ok (sym (rw (dead, recv_enter) refl) ∙ done)))
  | inr live ↦
      let sent = (s.threads sender).wait.msg in
      let copy = copy_between s sender self sent in
      elim (Bool-cases (copy.1 == ipc_ok)) [
        | inr refused ↦ absurd (
            ground (
              arith,
              refused,
              finished-ok copy.1 ipc_ok (sym (rw (live, w.alone, refused, recv_enter) refl) ∙ done),
            ))
        | inl copied ↦
            rw (live, w.alone, copied, recv_enter)
              (taken-Lost copy.0 self ep sender
                (Waiting-same ep sender (copy_between-SameBut s sender self sent) w))
      ]
]

-- The lost wake-up. A sender waits, once, on one endpoint, where no other sender waits; its message
-- is not a call, no thread owes it a reply, and it has not gone to sleep yet. A receive takes its
-- message and ends with IPC_OK, and then it sleeps. It was told IPC_OK, and after any history of
-- steps of other threads, without a wake_step of this thread, it does not run.
pub run-sleep-recv_enter :
    (s : Ipc) (has_memory : Bool) (self ep sender : ℕ) (msg : Message) (xs : List Step)
    → Waiting s ep sender
    → (recv_enter s has_memory self ep msg).2 ≡ finished ipc_ok
    → AllOther sender xs
    → let taken = (recv_enter s has_memory self ep msg).0 in
      ((taken.threads sender).wait.result ≡ ipc_ok)
      × (((run (sleep taken sender) xs).threads sender).running ≡ false)
run-sleep-recv_enter s has_memory self ep sender msg xs w done others =
    let out = recv_enter s has_memory self ep msg in
    let r : Receives s has_memory self ep msg out.0 out.1 (finished ipc_ok) =
      subst (Receives s has_memory self ep msg out.0 out.1) done
        (recv_enter_lem s has_memory self ep msg) in
    let got = r.0 refl in
    let same : got.sender ∷ got.rest ≡ sender ∷ [] = sym got.first ∙ w.alone in
    let who : got.sender ≡ sender = cc in
    let told : (out.0.threads sender).wait.result ≡ ipc_ok =
      subst (λ t. (out.0.threads t).wait.result ≡ ipc_ok) who got.told in
    (
      told,
      (run-Lost (sleep out.0 sender) sender xs others
          (received-Lost s has_memory self ep sender msg w done)).asleep,
    )
