-- ===== src/Ipc/Lifecycle.antt =====
-- What the destruction of an endpoint does for the threads that wait on it and for later lookups.
use ocean_linux.Ipc.Registry.{
  endpoint_put, find_endpoint_locked, wake_dead, endpoint_destroy, unlink_from_owner, Registry,
  endpoint_get, mark_dead, take_off_list,
}
use ocean_linux.Ipc.{Ipc, set_endpoint, Endpoint, wake, ipc_err_dead, unlink_wait, set_thread}
use ocean_linux.Base.{
  ℕ, List, ◌≡◌, Bool, ◌∙◌, arith, false, Bool-cases, true, ◌∷◌, ap, [], some, ◌+◌, ◌==◌, refl, ◌^◌,
  inl, if◌then◌else◌, ◌⊎◌, inr, ◌-◌, ◌&&◌, ◌≢◌, not, ◌%◌, some_injective, sym, subst, none,
  Option-cases,
}

abbrev pub contains : ℕ → List ℕ → Bool
contains t [] = false
contains t (u ∷ us) = if u == t then true else contains t us

-- A thread that was told that its endpoint is dead, and may run.
abbrev pub ToldDead : Ipc → ℕ → Type 0
ToldDead s t = ((s.threads t).wait.result ≡ ipc_err_dead) × ((s.threads t).running ≡ true)

abbrev told_one : Ipc → ℕ → Ipc
told_one s u =
    wake
      (set_thread s u
        (record (s.threads u) { wait = record (s.threads u).wait { result = ipc_err_dead } }))
      u

wake_dead-keeps : (s : Ipc) (ts : List ℕ) (t : ℕ) → ToldDead s t → ToldDead (wake_dead s ts) t
unfolding wake_dead wake
wake_dead-keeps s [] t told = told
wake_dead-keeps s (u ∷ us) t (dead, runs) =
    wake_dead-keeps (told_one s u) us t
      (elim (Bool-cases (u == t)) [ inl same ↦ ground arith | inr other ↦ ground arith ])

wake_dead-ToldDead :
    (s : Ipc) (ts : List ℕ) (t : ℕ) → contains t ts ≡ true → ToldDead (wake_dead s ts) t
unfolding wake_dead wake
wake_dead-ToldDead s [] t h = cc
wake_dead-ToldDead s (u ∷ us) t h = elim (Bool-cases (u == t)) [
  | inl same ↦ wake_dead-keeps (told_one s u) us t (ground arith)
  | inr other ↦ wake_dead-ToldDead (told_one s u) us t (ground arith)
]

wake_dead-endpoints : (s : Ipc) (ts : List ℕ) → (wake_dead s ts).endpoints ≡ s.endpoints
unfolding wake_dead wake
wake_dead-endpoints s [] = refl
wake_dead-endpoints s (t ∷ ts) = wake_dead-endpoints (told_one s t) ts

-- A lookup finds only endpoints that are not dead and have the id.
pub find_endpoint_locked-live :
    (endpoints : ℕ → Endpoint) (eps : List ℕ) (id ep : ℕ)
    → find_endpoint_locked endpoints eps id ≡ some ep
    → ((endpoints ep).dead ≡ false) × ((endpoints ep).id ≡ id)
unfolding find_endpoint_locked
find_endpoint_locked-live endpoints [] id ep e = cc
find_endpoint_locked-live endpoints (x ∷ xs) id ep e =
    elim (Bool-cases (((endpoints x).id == id) && not (endpoints x).dead)) [
      | inl found ↦
          let same : x ≡ ep = some_injective (sym (rw found refl) ∙ e) in
          subst (λ n. ((endpoints n).dead ≡ false) × ((endpoints n).id ≡ id)) same (ground arith)
      | inr other ↦ find_endpoint_locked-live endpoints xs id ep (sym (rw other refl) ∙ e)
    ]

-- What is left of an endpoint that was destroyed.
record Destroyed (s after : Ipc) (ep : ℕ) : Type 0 where
  is_dead : (after.endpoints ep).dead ≡ true
  no_senders : (after.endpoints ep).send_queue ≡ []
  no_receivers : (after.endpoints ep).recv_queue ≡ []
  told :
      (t : ℕ)
      → (contains t (s.endpoints ep).send_queue ≡ true)
        ⊎ (contains t (s.endpoints ep).recv_queue ≡ true)
      → ToldDead after t

unlink_from_owner-ipc : (r : Registry) (ep : ℕ) → (unlink_from_owner r ep).ipc ≡ r.ipc
unfolding unlink_from_owner
unlink_from_owner-ipc r ep = ground arith

endpoint_put-Destroyed :
    (s : Ipc) (r : Registry) (ep : ℕ)
    → Destroyed s r.ipc ep
    → Destroyed s (endpoint_put r ep).ipc ep
unfolding endpoint_put
endpoint_put-Destroyed s r ep d =
    elim (Bool-cases (((r.ipc.endpoints ep).refcount + 2 ^ 32 - 1) % 2 ^ 32 == 0)) [
      | inl last ↦
          rw (last, endpoint_put)
            (record {
              is_dead = ground (arith, d.is_dead);
              no_senders = ground (arith, d.no_senders);
              no_receivers = ground (arith, d.no_receivers);
              told = d.told;
            })
      | inr more ↦
          rw (more, endpoint_put)
            (record {
              is_dead = ground (arith, d.is_dead);
              no_senders = ground (arith, d.no_senders);
              no_receivers = ground (arith, d.no_receivers);
              told = d.told;
            })
    ]

module _ (s : Ipc) (ep : ℕ) where
  abbrev marked : Ipc
  marked =
      set_endpoint s ep
        (record (s.endpoints ep) { dead = true; listed = false; send_queue = []; recv_queue = [] })

  abbrev all_woken : Ipc
  all_woken = wake_dead (wake_dead marked (s.endpoints ep).send_queue) (s.endpoints ep).recv_queue

  woken-Destroyed : Destroyed s all_woken ep
  woken-Destroyed =
      let same =
        wake_dead-endpoints (wake_dead marked (s.endpoints ep).send_queue)
          (s.endpoints ep).recv_queue
        ∙ wake_dead-endpoints marked (s.endpoints ep).send_queue in
      record {
        is_dead = ap (λ (f : ℕ → Endpoint). (f ep).dead) same ∙ ground arith;
        no_senders = ap (λ (f : ℕ → Endpoint). (f ep).send_queue) same ∙ ground arith;
        no_receivers = ap (λ (f : ℕ → Endpoint). (f ep).recv_queue) same ∙ ground arith;
        told = λ t waits. elim waits [
          | inl sends ↦
              wake_dead-keeps (wake_dead marked (s.endpoints ep).send_queue)
                (s.endpoints ep).recv_queue t
                (wake_dead-ToldDead marked (s.endpoints ep).send_queue t sends)
          | inr receives ↦
              wake_dead-ToldDead (wake_dead marked (s.endpoints ep).send_queue)
                (s.endpoints ep).recv_queue t receives
        ];
      }

destroy-Destroyed :
    (r : Registry) (ep : ℕ)
    → (r.ipc.endpoints ep).dead ≡ false
    → Destroyed r.ipc (endpoint_destroy r ep).ipc ep
unfolding endpoint_destroy mark_dead take_off_list
destroy-Destroyed r ep live =
    let d = woken-Destroyed r.ipc ep in
    let woken : Registry = record r { ipc = all_woken r.ipc ep } in
    let unlisted : Registry = record woken { endpoint_list = unlink_wait ep woken.endpoint_list } in
    elim (Bool-cases (r.ipc.endpoints ep).listed) [
      | inr hidden ↦ rw (live, hidden, endpoint_destroy, mark_dead) d
      | inl listed ↦
          rw (live, listed, endpoint_destroy, mark_dead)
            (endpoint_put-Destroyed r.ipc (unlink_from_owner unlisted ep) ep
              (subst (λ i. Destroyed r.ipc i ep) (sym (unlink_from_owner-ipc unlisted ep)) d))
    ]

endpoint_get-live :
    (r : Registry) (id ep : ℕ) → (endpoint_get r id).1 ≡ some ep → (r.ipc.endpoints ep).dead ≡ false
unfolding endpoint_get
endpoint_get-live r id ep e =
    elim (Option-cases (find_endpoint_locked r.ipc.endpoints r.endpoint_list id)) [
      | inl missing ↦ absurd (none_some (sym (rw (missing, endpoint_get) refl) ∙ e))
      | inr (x, found) ↦
          let same : x ≡ ep = some_injective (sym (rw (found, endpoint_get) refl) ∙ e) in
          subst (λ n. (r.ipc.endpoints n).dead ≡ false) same
            (find_endpoint_locked-live r.ipc.endpoints r.endpoint_list id x found).0
    ]
  where
    none_some : none ≡ some ep → ⊥
    none_some q = cc

-- endpoint_destroy of an endpoint that is not dead yet marks it, empties its queues, and wakes every
-- thread that waited in them with IPC_ERR_DEAD; endpoint_get finds it under no id afterwards.
pub endpoint_destroy_lem :
    (r : Registry) (ep : ℕ)
    → (r.ipc.endpoints ep).dead ≡ false
    → let after = endpoint_destroy r ep in
      ((after.ipc.endpoints ep).send_queue ≡ [])
      × ((after.ipc.endpoints ep).recv_queue ≡ [])
      × ((t : ℕ)
          → (contains t (r.ipc.endpoints ep).send_queue ≡ true)
            ⊎ (contains t (r.ipc.endpoints ep).recv_queue ≡ true)
          → ToldDead after.ipc t)
      × ((id : ℕ) → (endpoint_get after id).1 ≢ some ep)
endpoint_destroy_lem r ep live =
    let d = destroy-Destroyed r ep live in
    (
      d.no_senders,
      d.no_receivers,
      d.told,
      λ id e. absurd (clash (sym (endpoint_get-live (endpoint_destroy r ep) id ep e) ∙ d.is_dead)),
    )
  where
    clash : false ≡ true → ⊥
    clash q = cc
