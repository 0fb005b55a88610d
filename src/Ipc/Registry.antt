-- ===== src/Ipc/Registry.antt =====
-- kernel/ipc/endpoint.c: the global list of endpoints and the life of an endpoint. `memory` is the
-- address that kmalloc gives for a new endpoint, if it has memory; `freed` says which endpoints
-- kfree was given. The lists hold the endpoints' names, the head first.
use ocean_linux.Ipc.{
  Endpoint, Ipc, set_endpoint, wake, unlink_wait, store, set_thread, ipc_err_dead,
}
use ocean_linux.Base.{
  ℕ, length, none, Option, ◌+◌, if◌then◌else◌, suc, [], ◌^◌, leb, List, some, ltb, ◌%◌, ◌-◌, Bool,
  ◌||◌, false, true, ◌∷◌, ◌==◌, ◌++◌, zero, ◌&&◌, not,
}

pub record Registry : Type 0 where
  pub ipc : Ipc
  pub endpoint_list : List ℕ
  pub owned_endpoints : ℕ → List ℕ
  pub next_endpoint_id : ℕ
  pub freed : ℕ → Bool

abbrev pub ep_wke_min : ℕ
ep_wke_min = 1

abbrev pub ep_wke_max : ℕ
ep_wke_max = 15

unfoldable pub alloc_endpoint_id : Registry → Registry × ℕ
alloc_endpoint_id r =
    let id = (if leb r.next_endpoint_id ep_wke_max then ep_wke_max + 1 else r.next_endpoint_id) in
    (record r { next_endpoint_id = (id + 1) % 2 ^ 32 }, id)

unfoldable pub link_to_owner : Registry → ℕ → Registry
link_to_owner r ep = elim (r.ipc.endpoints ep).owner [
  | none ↦ r
  | some owner ↦ record r {
    owned_endpoints = store r.owned_endpoints owner (r.owned_endpoints owner ++ (ep ∷ []));
  }
]

unfoldable pub unlink_from_owner : Registry → ℕ → Registry
unfolding unlink_wait
unlink_from_owner r ep = elim (r.ipc.endpoints ep).owner [
  | none ↦ r
  | some owner ↦ record r {
    owned_endpoints = store r.owned_endpoints owner (unlink_wait ep (r.owned_endpoints owner));
  }
]

-- The first endpoint of the list with the id that is not dead.
unfoldable pub find_endpoint_locked : (ℕ → Endpoint) → List ℕ → ℕ → Option ℕ
find_endpoint_locked endpoints [] id = none
find_endpoint_locked endpoints (ep ∷ eps) id =
    let rest = find_endpoint_locked endpoints eps id in
    if ((endpoints ep).id == id) && not (endpoints ep).dead then some ep else rest

unfoldable pub init_endpoint : Registry → ℕ → Option ℕ → ℕ → Registry
init_endpoint r ep owner id = record r {
  ipc = set_endpoint r.ipc ep (record {
    id = id;
    dead = false;
    listed = true;
    send_queue = [];
    recv_queue = [];
    refcount = 1;
    owner = owner;
    bound_thread = none;
    msgs_sent = 0;
    msgs_received = 0;
  });
  freed = store r.freed ep false;
}

unfoldable pub endpoint_create : Registry → Option ℕ → Option ℕ → Registry × Option ℕ
unfolding alloc_endpoint_id init_endpoint link_to_owner
endpoint_create r memory owner =
    let (numbered, id) = alloc_endpoint_id r in
    elim memory [
      | none ↦ (numbered, none)
      | some ep ↦
          let made = init_endpoint numbered ep owner id in
          (link_to_owner (record made { endpoint_list = ep ∷ made.endpoint_list }) ep, some ep)
    ]

unfoldable pub endpoint_create_well_known : Registry → Option ℕ → Option ℕ → ℕ → Registry × Option ℕ
unfolding init_endpoint link_to_owner find_endpoint_locked
endpoint_create_well_known r memory owner id =
    if ltb id ep_wke_min || ltb ep_wke_max id then (r, none) else elim memory [
      | none ↦ (r, none)
      | some ep ↦
          let made = init_endpoint r ep owner id in
          elim (find_endpoint_locked made.ipc.endpoints made.endpoint_list id) [
            | some other ↦ (record made { freed = store made.freed ep true }, none)
            | none ↦ (
              link_to_owner (record made { endpoint_list = ep ∷ made.endpoint_list }) ep,
              some ep,
            )
          ]
    ]

unfoldable pub endpoint_get : Registry → ℕ → Registry × Option ℕ
unfolding find_endpoint_locked
endpoint_get r id = elim (find_endpoint_locked r.ipc.endpoints r.endpoint_list id) [
  | none ↦ (r, none)
  | some ep ↦
      let endpoint = r.ipc.endpoints ep in
      (
        record r {
          ipc =
              set_endpoint r.ipc ep
                (record endpoint { refcount = (endpoint.refcount + 1) % 2 ^ 32 });
        },
        some ep,
      )
]

unfoldable pub endpoint_put : Registry → ℕ → Registry
endpoint_put r ep =
    let endpoint = r.ipc.endpoints ep in
    let refs = (endpoint.refcount + 2 ^ 32 - 1) % 2 ^ 32 in
    let dropped = record r { ipc = set_endpoint r.ipc ep (record endpoint { refcount = refs }) } in
    if refs == 0 then record dropped { freed = store dropped.freed ep true } else dropped

-- The loop that wakes all threads of a queue with IPC_ERR_DEAD.
unfoldable pub wake_dead : Ipc → List ℕ → Ipc
unfolding wake
wake_dead s [] = s
wake_dead s (t ∷ ts) =
    let thread = s.threads t in
    let told =
      set_thread s t (record thread { wait = record thread.wait { result = ipc_err_dead } }) in
    wake_dead (wake told t) ts

-- endpoint_destroy up to where it gives up the endpoint's lock, and whether it goes on to take the
-- endpoint off the list.
unfoldable pub mark_dead : Registry → ℕ → Registry × Bool
unfolding wake_dead
mark_dead r ep =
    let endpoint = r.ipc.endpoints ep in
    let marked =
      set_endpoint r.ipc ep
        (record endpoint { dead = true; listed = false; send_queue = []; recv_queue = [] }) in
    let woken = record r {
      ipc = wake_dead (wake_dead marked endpoint.send_queue) endpoint.recv_queue;
    } in
    if endpoint.dead then (r, false) else (woken, endpoint.listed)

-- The rest of it: the list under its own lock, the owner, and the reference.
unfoldable pub take_off_list : Registry → ℕ → Registry
unfolding unlink_wait unlink_from_owner endpoint_put
take_off_list r ep =
    endpoint_put
      (unlink_from_owner (record r { endpoint_list = unlink_wait ep r.endpoint_list }) ep) ep

-- The two parts, with no step of another thread in between.
unfoldable pub endpoint_destroy : Registry → ℕ → Registry
unfolding mark_dead take_off_list
endpoint_destroy r ep =
    let (marked, remove_from_list) = mark_dead r ep in
    if remove_from_list then take_off_list marked ep else marked

-- The loop of ipc_destroy_owned_by_process: each round takes the first endpoint off the list, so
-- as many rounds as the list is long are enough.
unfoldable pub destroy_owned : Registry → ℕ → ℕ → Registry
unfolding endpoint_destroy endpoint_put
destroy_owned r proc zero = r
destroy_owned r proc (suc n) = elim (r.owned_endpoints proc) [
  | [] ↦ r
  | ep ∷ rest ↦
      let endpoint = r.ipc.endpoints ep in
      let held = record r {
        ipc =
            set_endpoint r.ipc ep (record endpoint { refcount = (endpoint.refcount + 1) % 2 ^ 32 });
        owned_endpoints = store r.owned_endpoints proc rest;
      } in
      destroy_owned (endpoint_put (endpoint_destroy held ep) ep) proc n
]

unfoldable pub ipc_destroy_owned_by_process : Registry → ℕ → Registry
unfolding destroy_owned
ipc_destroy_owned_by_process r proc = destroy_owned r proc (length (r.owned_endpoints proc))

unfoldable pub endpoint_bind : Ipc → ℕ → ℕ → Ipc × Bool
endpoint_bind s ep t =
    let endpoint = s.endpoints ep in
    elim endpoint.bound_thread [
      | some other ↦ (s, false)
      | none ↦ (set_endpoint s ep (record endpoint { bound_thread = some t }), true)
    ]

unfoldable pub endpoint_unbind : Ipc → ℕ → Ipc
endpoint_unbind s ep = set_endpoint s ep (record (s.endpoints ep) { bound_thread = none })

-- Whether a queue is not empty.
unfoldable pub endpoint_has_receiver : Ipc → ℕ → Bool
endpoint_has_receiver s ep = elim (s.endpoints ep).recv_queue [ [] ↦ false | t ∷ ts ↦ true ]

unfoldable pub endpoint_has_sender : Ipc → ℕ → Bool
endpoint_has_sender s ep = elim (s.endpoints ep).send_queue [ [] ↦ false | t ∷ ts ↦ true ]
