-- ===== src/Ipc/Exchange.antt =====
-- What a receiver gets from a sender that waits, and what becomes of the sender.
use ocean_linux.Ipc.Rendezvous.{SameBut, take_over-endpoints, copy_between-SameBut}
use ocean_linux.Ipc.{
  Ipc, Message, take_over, link_call, wake, ipc_ok, ipc_op_call, recv_enter, copy_message, Progress,
  Endpoint, msg_has_flag, finished, msg_flag_nonblock, Thread, ipc_err_dead, blocked, copy_between,
  ipc_err_nopartner, ipc_err_busy,
}
use ocean_linux.Base.{
  ℕ, List, ◌≡◌, ◌∷◌, true, Bool-cases, ◌==◌, inl, arith, inr, ap, Bool, sym, [], ◌++◌, List-cases,
  ◌∙◌, refl, subst, false, Option, ◌<◌, length, ◌≢◌, Option-cases, get_or, take, some, drop,
  if◌then◌else◌, ltb, none, suc, zero, ◌⊎◌,
}

-- A buffer after a copy: the bytes of the sender's as far as both go, and the receiver's own behind
-- them. Where one has no buffer, the receiver's stays.
abbrev pub BufferFrom : Option (List ℕ) → Option (List ℕ) → Option (List ℕ) → Type 0
BufferFrom none from out = out ≡ none
BufferFrom (some to) none out = out ≡ some to
BufferFrom (some to) (some from) none = ⊥
BufferFrom (some to) (some from) (some out) =
    (length out ≡ length to)
    × ((i : ℕ)
        → i < length to
        → get_or out i 0 ≡ (if ltb i (length from) then get_or from i 0 else get_or to i 0))

merged_length :
    (from to : List ℕ) → length (take (length to) from ++ drop (length from) to) ≡ length to
merged_length [] [] = refl
merged_length [] (t ∷ ts) = refl
merged_length (f ∷ fs) [] = refl
merged_length (f ∷ fs) (t ∷ ts) = omega (arith, merged_length fs ts)

merged_byte :
    (from to : List ℕ) (i : ℕ)
    → i < length to
    → get_or (take (length to) from ++ drop (length from) to) i 0
      ≡ (if ltb i (length from) then get_or from i 0 else get_or to i 0)
merged_byte [] [] i h = absurd (omega (arith, h))
merged_byte [] (t ∷ ts) i h = ground arith
merged_byte (f ∷ fs) [] i h = absurd (omega (arith, h))
merged_byte (f ∷ fs) (t ∷ ts) zero h = ground arith
merged_byte (f ∷ fs) (t ∷ ts) (suc i) h = merged_byte fs ts i (omega (arith, h)) ∙ ground arith

copy_message-BufferFrom :
    (dst src : Message) → BufferFrom dst.buffer src.buffer (copy_message dst src).buffer
unfolding copy_message
copy_message-BufferFrom dst src = elim (Option-cases src.buffer) [
  | inl e ↦ elim (Option-cases dst.buffer) [
    | inl d ↦ rw (e, d, copy_message) refl
    | inr (to, d) ↦ rw (e, d, copy_message) refl
  ]
  | inr (from, e) ↦ elim (Option-cases dst.buffer) [
    | inl d ↦ rw (e, d, copy_message) refl
    | inr (to, d) ↦ rw (e, d, copy_message) (merged_length from to, merged_byte from to)
  ]
]

-- The end of a receive, into `msg`, that finds a sender.
pub record Received (s after : Ipc) (ep : ℕ) (msg answer : Message) : Type 0 where
  pub sender : ℕ
  pub rest : List ℕ
  pub first : (s.endpoints ep).send_queue ≡ sender ∷ rest
  pub dequeued : (after.endpoints ep).send_queue ≡ rest
  pub tag_same : answer.tag ≡ (s.threads sender).wait.msg.tag
  pub regs_same : answer.regs ≡ (s.threads sender).wait.msg.regs
  pub buffer_copied : BufferFrom msg.buffer (s.threads sender).wait.msg.buffer answer.buffer
  pub told : (after.threads sender).wait.result ≡ ipc_ok
  pub woken : (after.threads sender).running ≡ true

-- The state of a sender's thread after the transfer.
take_over-sender :
    (s : Ipc) (self ep sender : ℕ) (rest : List ℕ)
    → let thread = (take_over s self ep sender rest).threads sender in
      (thread.wait.result ≡ ipc_ok) × (thread.running ≡ true)
unfolding take_over link_call wake
take_over-sender s self ep sender rest =
    elim (Bool-cases ((s.threads sender).wait.operation == ipc_op_call)) [
      | inl call ↦ rw (call, take_over) (ground arith)
      | inr send ↦ rw (send, take_over) (ground arith)
    ]

take_over_lem :
    (s : Ipc) (self ep sender : ℕ) (rest : List ℕ) (msg : Message)
    → (s.endpoints ep).send_queue ≡ sender ∷ rest
    → Received s
        (take_over s self ep sender rest)
        ep
        msg
        (copy_message msg (s.threads sender).wait.msg)
unfolding copy_message
take_over_lem s self ep sender rest msg first =
    let thread = take_over-sender s self ep sender rest in
    record {
      sender = sender;
      rest = rest;
      first = first;
      dequeued =
          ap (λ (f : ℕ → Endpoint). (f ep).send_queue) (take_over-endpoints s self ep sender rest)
          ∙ ground arith;
      tag_same = refl;
      regs_same = refl;
      buffer_copied = copy_message-BufferFrom msg (s.threads sender).wait.msg;
      told = thread.0;
      woken = thread.1;
    }

-- The reasons for an error: the endpoint is dead; no sender waits, and the message says not to
-- block or there is no memory for the wait; or the slice of the first sender cannot be copied.
abbrev Refuses : Ipc → Bool → ℕ → ℕ → Message → ℕ → Type 0
Refuses s has_memory self ep msg result =
    (((s.endpoints ep).dead ≡ true) × (result ≡ ipc_err_dead))
    ⊎ (((s.endpoints ep).send_queue ≡ [])
        × (msg_has_flag msg msg_flag_nonblock ≡ true)
        × (result ≡ ipc_err_nopartner))
    ⊎ (((s.endpoints ep).send_queue ≡ []) × (has_memory ≡ false) × (result ≡ ipc_err_busy))
    ⊎ ((sender : ℕ) × (rest : List ℕ) × ((s.endpoints ep).send_queue ≡ sender ∷ rest)
        × (result ≡ (copy_between s sender self (s.threads sender).wait.msg).1))

-- How a receive into `msg` ends. With IPC_OK it has the message of the sender that waited first,
-- which is told so and woken, and the others wait on; with an error, which has its reason, `msg` is
-- as it was. A dead endpoint gives IPC_ERR_DEAD. It blocks, at the end of the queue, only on a live
-- endpoint where no sender waits, and only if the message allows it.
abbrev pub Receives : Ipc → Bool → ℕ → ℕ → Message → Ipc → Message → Progress → Type 0
Receives s has_memory self ep msg after answer blocked =
    ((s.endpoints ep).dead ≡ false)
    × ((s.endpoints ep).send_queue ≡ [])
    × (msg_has_flag msg msg_flag_nonblock ≡ false)
    × ((after.endpoints ep).recv_queue ≡ (s.endpoints ep).recv_queue ++ (self ∷ []))
Receives s has_memory self ep msg after answer (finished result) =
    (result ≡ ipc_ok → Received s after ep msg answer)
    × (result ≢ ipc_ok → (answer ≡ msg) × Refuses s has_memory self ep msg result)
    × ((s.endpoints ep).dead ≡ true → result ≡ ipc_err_dead)

same_message :
    (s copied after : Ipc) (ep : ℕ) (msg answer : Message)
    → SameBut s copied
    → Received copied after ep msg answer
    → Received s after ep msg answer
same_message s copied after ep msg answer same r = record {
  sender = r.sender;
  rest = r.rest;
  first = sym (ap (λ (f : ℕ → Endpoint). (f ep).send_queue) same.endpoints_same) ∙ r.first;
  dequeued = r.dequeued;
  tag_same = r.tag_same ∙ ap (λ (f : ℕ → Thread). (f r.sender).wait.msg.tag) same.threads_same;
  regs_same = r.regs_same ∙ ap (λ (f : ℕ → Thread). (f r.sender).wait.msg.regs) same.threads_same;
  buffer_copied =
      subst (λ (f : ℕ → Thread). BufferFrom msg.buffer (f r.sender).wait.msg.buffer answer.buffer)
        same.threads_same r.buffer_copied;
  told = r.told;
  woken = r.woken;
}

-- ipc_recv up to the sleep, on every path. With IPC_OK the receiver has the message of the sender
-- that waited first, which is dequeued, told IPC_OK and woken. With an error its message is as it
-- was: the endpoint is dead (IPC_ERR_DEAD), or no sender waits and it may not or cannot block, or
-- the sender's slice cannot be copied. It blocks, at the end of the queue, only on a live endpoint
-- where no sender waits and without NONBLOCK.
pub recv_enter_lem :
    (s : Ipc) (has_memory : Bool) (self ep : ℕ) (msg : Message)
    → let (after, answer, progress) = recv_enter s has_memory self ep msg in
      Receives s has_memory self ep msg after answer progress
unfolding recv_enter
recv_enter_lem s has_memory self ep msg = elim (Bool-cases (s.endpoints ep).dead) [
  | inl dead ↦
      rw (dead, recv_enter)
        (λ e. absurd (omega (arith, e)), λ n. (refl, inl (dead, refl)), λ d. refl)
  | inr live ↦ elim (List-cases (s.endpoints ep).send_queue) [
    | inl none_waits ↦ elim (Bool-cases (msg_has_flag msg msg_flag_nonblock)) [
      | inl nonblock ↦
          rw (live, none_waits, nonblock, recv_enter)
            (
              λ e. absurd (omega (arith, e)),
              λ n. (refl, inr (inl (none_waits, nonblock, refl))),
              λ d. cc,
            )
      | inr blocking ↦ elim (Bool-cases has_memory) [
        | inr empty ↦
            rw (live, none_waits, blocking, empty, recv_enter)
              (
                λ e. absurd (omega (arith, e)),
                λ n. (refl, inr (inr (inl (none_waits, refl, refl)))),
                λ d. cc,
              )
        | inl full ↦
            rw (live, none_waits, blocking, full, recv_enter)
              (live, none_waits, blocking, ground arith)
      ]
    ]
    | inr (sender, rest, waits) ↦
        let copy = copy_between s sender self (s.threads sender).wait.msg in
        let same = copy_between-SameBut s sender self (s.threads sender).wait.msg in
        elim (Bool-cases (copy.1 == ipc_ok)) [
          | inr refused ↦
              rw (live, waits, refused, recv_enter)
                (
                  λ e. absurd (ground (arith, refused, e)),
                  λ n. (refl, inr (inr (inr (sender, rest, waits, refl)))),
                  λ d. cc,
                )
          | inl copied ↦
              let first =
                ap (λ (f : ℕ → Endpoint). (f ep).send_queue) same.endpoints_same ∙ waits in
              let r = take_over_lem copy.0 self ep sender rest msg first in
              let r' =
                subst
                  (λ f.
                    Received copy.0 (take_over copy.0 self ep sender rest) ep msg
                      (copy_message msg (f sender).wait.msg))
                  same.threads_same r in
              rw (live, waits, copied, recv_enter)
                (
                  λ e.
                      same_message s copy.0 (take_over copy.0 self ep sender rest) ep msg
                        (copy_message msg (s.threads sender).wait.msg) same r',
                  λ n. absurd (n refl),
                  λ d. cc,
                )
        ]
  ]
]
