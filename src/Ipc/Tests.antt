-- ===== src/Ipc/Tests.antt =====
-- The theorems about messages at a concrete input: an endpoint with one sender in its queue.
use ocean_linux.Ipc.Forgotten.{Waiting, run-sleep-recv_enter}
use ocean_linux.Ipc.Exchange.{Receives, recv_enter_lem}
use ocean_linux.Ipc.Lifecycle.{contains, ToldDead, endpoint_destroy_lem}
use ocean_linux.Ipc.Steps.{
  Step, run, send_step, run-AllOneSided, recv_step, reply_step, cleanup_step,
}
use ocean_linux.Ipc.Rendezvous.{AllOneSided}
use ocean_linux.Ipc.{
  sleep, Ipc, recv_enter, Message, Thread, Endpoint, copy_between, copy_message, finished, ipc_ok,
  ipc_op_send, ipc_op_call, ipc_err_nopartner,
}
use ocean_linux.Ipc.Registry.{endpoint_destroy, Registry, endpoint_get}
use ocean_linux.Base.{
  ℕ, List, ◌≡◌, none, ◌∷◌, false, true, [], refl, ◌⊎◌, inl, ◌≢◌, some, if◌then◌else◌, arith, ◌==◌,
}

abbrev hello : Message
hello = record { tag = 7; regs = 1 ∷ 2 ∷ []; buffer = none }

abbrev empty_message : Message
empty_message = record { tag = 0; regs = 0 ∷ 0 ∷ []; buffer = none }

abbrev idle_thread : Thread
idle_thread = record {
  running = true;
  process = none;
  wait = record { msg = hello; operation = ipc_op_send; result = ipc_err_nopartner };
  ipc_reply_pending = false;
  ipc_reply_result = 0;
  ipc_reply_tag = 0;
  ipc_reply_regs = [];
  ipc_reply_server = none;
  ipc_caller = none;
}

abbrev endpoint_of : List ℕ → Endpoint
endpoint_of senders = record {
  id = 16;
  dead = false;
  listed = true;
  send_queue = senders;
  recv_queue = [];
  refcount = 1;
  owner = none;
  bound_thread = none;
  msgs_sent = 0;
  msgs_received = 0;
}

abbrev ipc_of : List ℕ → Ipc
ipc_of senders = record {
  threads = λ t. idle_thread;
  endpoints = λ ep. endpoint_of senders;
  windows = λ p. none;
  total_messages = 0;
  fast_path_count = 0;
}

abbrev one_endpoint : Registry
one_endpoint = record {
  ipc = ipc_of (1 ∷ []);
  endpoint_list = 5 ∷ [];
  owned_endpoints = λ p. [];
  next_endpoint_id = 17;
  freed = λ ep. false;
}

recv_enter_lem_example :
    let (after, answer, progress) = recv_enter (ipc_of (1 ∷ [])) true 2 5 empty_message in
    Receives (ipc_of (1 ∷ [])) true 2 5 empty_message after answer progress
recv_enter_lem_example = recv_enter_lem (ipc_of (1 ∷ [])) true 2 5 empty_message

gets_hello : (recv_enter (ipc_of (1 ∷ [])) true 2 5 empty_message).1 ≡ hello
unfolding recv_enter copy_message copy_between
gets_hello = refl

received : (recv_enter (ipc_of (1 ∷ [])) true 2 5 empty_message).2 ≡ finished ipc_ok
unfolding recv_enter copy_between
received = refl

-- Thread 1 waits on endpoint 5, and there only.
abbrev one_sender : Ipc
one_sender = record (ipc_of []) { endpoints = λ ep. endpoint_of (if ep == 5 then 1 ∷ [] else []) }

one_sender-Waiting : Waiting one_sender 5 1
one_sender-Waiting = record {
  alone = refl;
  nowhere_else = λ k other. ground (arith, other);
  receives_nowhere = λ k. refl;
  no_call = refl;
  not_owed = λ u. refl;
}

takes_hello : (recv_enter one_sender true 2 5 empty_message).2 ≡ finished ipc_ok
unfolding recv_enter copy_between
takes_hello = refl

-- Later another sender comes and is served, and a thread exits.
abbrev later_steps : List Step
later_steps =
    send_step true 3 5 hello ipc_op_send
    ∷ recv_step true 2 5 empty_message
    ∷ reply_step 2 hello
    ∷ cleanup_step 2
    ∷ []

run-sleep-recv_enter_example :
    let taken = (recv_enter one_sender true 2 5 empty_message).0 in
    ((taken.threads 1).wait.result ≡ ipc_ok)
    × (((run (sleep taken 1) later_steps).threads 1).running ≡ false)
run-sleep-recv_enter_example =
    run-sleep-recv_enter one_sender true 2 5 1 empty_message later_steps one_sender-Waiting
      takes_hello
      ((λ e. absurd (omega (arith, e))), ((λ e. absurd (omega (arith, e))), (tt, (tt, tt))))

endpoint_destroy_lem_example :
    let after = endpoint_destroy one_endpoint 5 in
    ((after.ipc.endpoints 5).send_queue ≡ [])
    × ((after.ipc.endpoints 5).recv_queue ≡ [])
    × ((t : ℕ)
        → (contains t (one_endpoint.ipc.endpoints 5).send_queue ≡ true)
          ⊎ (contains t (one_endpoint.ipc.endpoints 5).recv_queue ≡ true)
        → ToldDead after.ipc t)
    × ((id : ℕ) → (endpoint_get after id).1 ≢ some 5)
endpoint_destroy_lem_example = endpoint_destroy_lem one_endpoint 5 refl

-- Two senders come, then a receiver that takes the first message.
abbrev three_steps : List Step
three_steps =
    send_step true 1 5 hello ipc_op_send
    ∷ send_step true 3 5 hello ipc_op_call
    ∷ recv_step true 2 5 empty_message
    ∷ []

run-AllOneSided_example : AllOneSided (run (ipc_of []) three_steps)
run-AllOneSided_example = run-AllOneSided (ipc_of []) three_steps (λ ep. inl refl)
