-- ===== src/Ipc/Rendezvous.antt =====
-- Senders and receivers never wait on the same endpoint at once.
use ocean_linux.Ipc.{
  Ipc, send_enter, Endpoint, take_over, hand_over, copy_between, maybe_copy_window, Message,
  link_call, copy_ipc_slice, store, wake, word_mod, ipc_op_call, msg_has_flag, msg_flag_nonblock,
  ipc_ok, recv_enter, leave, unlink_wait, reject,
}
use ocean_linux.Base.{
  refl, ℕ, ◌≡◌, subst, Bool, [], List, ◌∷◌, sym, Option-cases, Bool-cases, ◌⊎◌, arith, ◌+◌, inl,
  ◌==◌, inr, ◌%◌, List-cases, ap, ◌∙◌,
}

-- What copying a window slice leaves alone.
pub record SameBut (s after : Ipc) : Type 0 where
  pub threads_same : after.threads ≡ s.threads
  pub endpoints_same : after.endpoints ≡ s.endpoints

maybe_copy_window-SameBut :
    (s : Ipc) (a b : ℕ) (msg : Message) → SameBut s (maybe_copy_window s a b msg).0
unfolding maybe_copy_window copy_ipc_slice
maybe_copy_window-SameBut s a b msg = record {
  threads_same = ground arith;
  endpoints_same = ground arith;
}

pub copy_between-SameBut :
    (s : Ipc) (a b : ℕ) (msg : Message) → SameBut s (copy_between s a b msg).0
unfolding copy_between
copy_between-SameBut s a b msg = elim (Option-cases (s.threads a).process) [
  | inl e ↦
      rw (e, copy_between) (record { threads_same = ground arith; endpoints_same = ground arith })
  | inr (p, e) ↦ elim (Option-cases (s.threads b).process) [
    | inl f ↦
        rw (e, f, copy_between)
          (record { threads_same = ground arith; endpoints_same = ground arith })
    | inr (q, f) ↦ rw (e, f, copy_between) (maybe_copy_window-SameBut s p q msg)
  ]
]

-- The queues of an endpoint: senders or receivers, not both.
abbrev pub OneSided : Endpoint → Type 0
OneSided endpoint = (endpoint.send_queue ≡ []) ⊎ (endpoint.recv_queue ≡ [])

abbrev pub AllOneSided : Ipc → Type 0
AllOneSided s = (ep : ℕ) → OneSided (s.endpoints ep)

store-OneSided :
    (endpoints : ℕ → Endpoint) (ep : ℕ) (new : Endpoint)
    → ((k : ℕ) → OneSided (endpoints k))
    → OneSided new
    → (k : ℕ) → OneSided (store endpoints ep new k)
store-OneSided endpoints ep new all one k = elim (Bool-cases (ep == k)) [
  | inl same ↦ rw same one
  | inr other ↦ rw other (all k)
]

pub hand_over-endpoints :
    (s : Ipc) (self ep receiver : ℕ) (rest : List ℕ) (msg : Message) (op : ℕ)
    → (hand_over s self ep receiver rest msg op).endpoints
      ≡ store s.endpoints ep (record (s.endpoints ep) {
        recv_queue = rest;
        msgs_sent = ((s.endpoints ep).msgs_sent + 1) % word_mod;
      })
unfolding hand_over link_call wake
hand_over-endpoints s self ep receiver rest msg op = elim (Bool-cases (op == ipc_op_call)) [
  | inl call ↦ rw (call, hand_over) refl
  | inr send ↦ rw (send, hand_over) refl
]

pub take_over-endpoints :
    (s : Ipc) (self ep sender : ℕ) (rest : List ℕ)
    → (take_over s self ep sender rest).endpoints
      ≡ store s.endpoints ep (record (s.endpoints ep) {
        send_queue = rest;
        msgs_received = ((s.endpoints ep).msgs_received + 1) % word_mod;
      })
unfolding take_over link_call wake
take_over-endpoints s self ep sender rest =
    elim (Bool-cases ((s.threads sender).wait.operation == ipc_op_call)) [
      | inl call ↦ rw (call, take_over) refl
      | inr send ↦ rw (send, take_over) refl
    ]

module _ (s after : Ipc) (same : after.endpoints ≡ s.endpoints) (all : AllOneSided s) where
  pub same_endpoints : AllOneSided after
  same_endpoints ep = subst (λ f. OneSided (f ep)) (sym same) (all ep)

-- Where one side waits, the other does not.
no_senders :
    (endpoint : Endpoint) {t : ℕ} {ts : List ℕ}
    → OneSided endpoint
    → endpoint.recv_queue ≡ t ∷ ts
    → endpoint.send_queue ≡ []
no_senders endpoint (inl e) q = e
no_senders endpoint (inr e) q = cc

no_receivers :
    (endpoint : Endpoint) {t : ℕ} {ts : List ℕ}
    → OneSided endpoint
    → endpoint.send_queue ≡ t ∷ ts
    → endpoint.recv_queue ≡ []
no_receivers endpoint (inl e) q = cc
no_receivers endpoint (inr e) q = e

hand_over-AllOneSided :
    (s : Ipc) (self ep receiver : ℕ) (rest : List ℕ) (msg : Message) (op : ℕ)
    → AllOneSided s
    → (s.endpoints ep).send_queue ≡ []
    → AllOneSided (hand_over s self ep receiver rest msg op)
hand_over-AllOneSided s self ep receiver rest msg op all none_sends k =
    subst (λ f. OneSided (f k)) (sym (hand_over-endpoints s self ep receiver rest msg op))
      (store-OneSided s.endpoints ep _ all (inl none_sends) k)

take_over-AllOneSided :
    (s : Ipc) (self ep sender : ℕ) (rest : List ℕ)
    → AllOneSided s
    → (s.endpoints ep).recv_queue ≡ []
    → AllOneSided (take_over s self ep sender rest)
take_over-AllOneSided s self ep sender rest all none_receives k =
    subst (λ f. OneSided (f k)) (sym (take_over-endpoints s self ep sender rest))
      (store-OneSided s.endpoints ep _ all (inr none_receives) k)

pub send_enter-AllOneSided :
    (s : Ipc) (has_memory : Bool) (self ep : ℕ) (msg : Message) (op : ℕ)
    → AllOneSided s
    → AllOneSided (send_enter s has_memory self ep msg op).0
unfolding send_enter
send_enter-AllOneSided s has_memory self ep msg op all = elim (Bool-cases (s.endpoints ep).dead) [
  | inl dead ↦ rw (dead, send_enter) all
  | inr live ↦ elim (List-cases (s.endpoints ep).recv_queue) [
    | inl none_waits ↦ elim (Bool-cases (msg_has_flag msg msg_flag_nonblock)) [
      | inl nonblock ↦ rw (live, none_waits, nonblock, send_enter) all
      | inr blocking ↦ elim (Bool-cases has_memory) [
        | inr empty ↦ rw (live, none_waits, blocking, empty, send_enter) all
        | inl full ↦
            rw (live, none_waits, blocking, full, send_enter)
              (store-OneSided s.endpoints ep _ all (inr none_waits))
      ]
    ]
    | inr (receiver, rest, waits) ↦
        let copy = copy_between s self receiver msg in
        let same = (copy_between-SameBut s self receiver msg).endpoints_same in
        elim (Bool-cases (copy.1 == ipc_ok)) [
          | inr refused ↦ rw (live, waits, refused, send_enter) all
          | inl copied ↦
              rw (live, waits, copied, send_enter)
                (hand_over-AllOneSided copy.0 self ep receiver rest msg op
                  (same_endpoints s copy.0 same all)
                  (ap (λ (f : ℕ → Endpoint). (f ep).send_queue) same
                    ∙ no_senders (s.endpoints ep) (all ep) waits))
        ]
  ]
]

pub recv_enter-AllOneSided :
    (s : Ipc) (has_memory : Bool) (self ep : ℕ) (msg : Message)
    → AllOneSided s
    → AllOneSided (recv_enter s has_memory self ep msg).0
unfolding recv_enter reject wake
recv_enter-AllOneSided s has_memory self ep msg all = elim (Bool-cases (s.endpoints ep).dead) [
  | inl dead ↦ rw (dead, recv_enter) all
  | inr live ↦ elim (List-cases (s.endpoints ep).send_queue) [
    | inl none_waits ↦ elim (Bool-cases (msg_has_flag msg msg_flag_nonblock)) [
      | inl nonblock ↦ rw (live, none_waits, nonblock, recv_enter) all
      | inr blocking ↦ elim (Bool-cases has_memory) [
        | inr empty ↦ rw (live, none_waits, blocking, empty, recv_enter) all
        | inl full ↦
            rw (live, none_waits, blocking, full, recv_enter)
              (store-OneSided s.endpoints ep _ all (inl none_waits))
      ]
    ]
    | inr (sender, rest, waits) ↦
        let copy = copy_between s sender self (s.threads sender).wait.msg in
        let same =
          (copy_between-SameBut s sender self (s.threads sender).wait.msg).endpoints_same in
        let alone = no_receivers (s.endpoints ep) (all ep) waits in
        elim (Bool-cases (copy.1 == ipc_ok)) [
          | inr refused ↦
              rw (live, waits, refused, recv_enter)
                (store-OneSided s.endpoints ep _ all (inr alone))
          | inl copied ↦
              rw (live, waits, copied, recv_enter)
                (take_over-AllOneSided copy.0 self ep sender rest (same_endpoints s copy.0 same all)
                  (ap (λ (f : ℕ → Endpoint). (f ep).recv_queue) same ∙ alone))
        ]
  ]
]

pub leave-AllOneSided : (s : Ipc) (self ep : ℕ) → AllOneSided s → AllOneSided (leave s self ep).0
unfolding leave unlink_wait
leave-AllOneSided s self ep all = store-OneSided s.endpoints ep _ all (elim (all ep) [
  | inl e ↦ inl (ap (unlink_wait self) e)
  | inr e ↦ inr (ap (unlink_wait self) e)
])
