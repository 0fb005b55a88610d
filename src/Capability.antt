-- ===== src/Capability.antt =====
-- kernel/ipc/capability.c: the capability spaces of processes, with struct capability and struct
-- cspace of kernel/include/ocean/ipc.h. An operation on one space takes the space and returns
-- the new one. The operations that take two spaces work on the list of all of them, where a
-- pointer is a position and a position past the end stands for NULL, so that source and target
-- may be one space. Each operation holds the locks of its spaces from start to end: one step.
-- A slot number -1 is `none`. What kprintf prints is left out.
pub mod Slots
pub mod Invariant
pub mod Lookup
pub mod Rights
pub mod Revoke
pub mod Steps
pub mod Authority
pub mod Transfer
mod Tests
use ocean_linux.Base.{
  ℕ, zero, suc, ◌+◌, ◌-◌, ◌*◌, ◌/◌, ◌%◌, ◌^◌, bit_and, Bool, true, false, not, ◌&&◌, ◌||◌, Option,
  none, some, List, [], ◌∷◌, if◌then◌else◌, ◌==◌, leb, get_elem?, get_or, set, replicate,
}
use ocean_linux.Base.BitArray.{test_bit, set_bit, clear_bit}

-- CAP_TYPE_NONE, CAP_TYPE_ENDPOINT and CAP_TYPE_NOTIFICATION.
abbrev pub type_none : ℕ
type_none = 0

abbrev pub type_endpoint : ℕ
type_endpoint = 1

abbrev pub type_notification : ℕ
type_notification = 7

-- CAP_RIGHT_GRANT and CAP_RIGHT_REVOKE.
abbrev pub right_grant : ℕ
right_grant = 2 ^ 2

abbrev pub right_revoke : ℕ
right_revoke = 2 ^ 3

pub record Capability : Type 0 where
  pub type : ℕ
  pub rights : ℕ
  pub object : ℕ
  pub badge : ℕ
  pub generation : ℕ
  pub slot : ℕ

-- What `memset(&cs->slots[slot], 0, …)` leaves.
abbrev pub empty_cap : Capability
empty_cap = record { type = 0; rights = 0; object = 0; badge = 0; generation = 0; slot = 0 }

pub record Cspace : Type 0 where
  pub slots : List Capability
  pub size : ℕ
  pub used : ℕ
  pub bitmap : List ℕ
  pub generation : ℕ

-- CSPACE_SIZE and CSPACE_MAX_SIZE.
abbrev pub cspace_size : ℕ
cspace_size = 256

abbrev pub cspace_max_size : ℕ
cspace_max_size = 65536

-- `cs->slots[i]`
abbrev pub slot_at : Cspace → ℕ → Capability
slot_at cs i = get_or cs.slots i empty_cap

-- The space after both allocations succeed.
pub cspace_init : Cspace
cspace_init = record {
  slots = replicate cspace_size empty_cap;
  size = cspace_size;
  used = 0;
  bitmap = replicate ((cspace_size + 63) / 64) 0;
  generation = 1;
}

pub cspace_destroy : Cspace → Cspace
cspace_destroy cs = record cs { slots = []; bitmap = []; size = 0; used = 0 }

-- The rounds left of the loop over `i`, and `i`.
pub find_free_from : ℕ → ℕ → List ℕ → Option ℕ
find_free_from zero i bitmap = none
find_free_from (suc n) i bitmap =
    if not (test_bit bitmap i) then some i else find_free_from n (suc i) bitmap

pub cspace_find_free_slot : Cspace → Option ℕ
cspace_find_free_slot cs = find_free_from cs.size 0 cs.bitmap

pub cspace_mark_used : Cspace → ℕ → Cspace
cspace_mark_used cs i = record cs { bitmap = set_bit cs.bitmap i; used = (cs.used + 1) % 2 ^ 32 }

-- `used--` on a u32.
pub cspace_mark_free : Cspace → ℕ → Cspace
cspace_mark_free cs i = record cs {
  bitmap = clear_bit cs.bitmap i;
  used = (cs.used + 2 ^ 32 - 1) % 2 ^ 32;
}

-- The lines that cap_insert, cap_copy and cap_mint share: copy the capability into the slot, with
-- the slot's number and the space's generation, and mark the slot.
pub fill_slot : Cspace → ℕ → Capability → Cspace
unfolding cspace_mark_used
fill_slot cs i cap =
    cspace_mark_used
      (record cs { slots = set cs.slots i (record cap { slot = i; generation = cs.generation }) }) i

pub cap_insert : Cspace → Capability → Cspace × Option ℕ
cap_insert cs cap = elim (cspace_find_free_slot cs) [
  | none ↦ (cs, none)
  | some i ↦ (fill_slot cs i cap, some i)
]

-- The pointer into the slots is the capability that it points at.
pub cap_lookup : Cspace → ℕ → Option Capability
cap_lookup cs i =
    if leb cs.size i
    then none
    else if not ((slot_at cs i).type == type_none)
    then some (slot_at cs i)
    else none

-- The result is true for 0 and false for -1.
pub cap_delete : Cspace → ℕ → Cspace × Bool
unfolding cspace_mark_free
cap_delete cs i =
    if leb cs.size i
    then (cs, false)
    else if (slot_at cs i).type == type_none
    then (cs, false)
    else (cspace_mark_free (record cs { slots = set cs.slots i empty_cap }) i, true)

-- `rights & right`, as a condition.
abbrev pub has_right : Capability → ℕ → Bool
has_right cap right = not (bit_and cap.rights right == 0)

pub cap_revoke : Cspace → ℕ → Cspace × Bool
cap_revoke cs i =
    if leb cs.size i
    then (cs, false)
    else if (slot_at cs i).type == type_none
    then (cs, false)
    else if not (has_right (slot_at cs i) right_revoke)
    then (cs, false)
    else (record cs { generation = (cs.generation + 1) % 2 ^ 32 }, true)

-- "Determine destination slot", where `(u32)-1` asks for any free one.
pub choose_slot : Cspace → ℕ → Option ℕ
choose_slot dst dst_slot =
    if dst_slot == 2 ^ 32 - 1
    then cspace_find_free_slot dst
    else if leb dst.size dst_slot
    then none
    else if not ((slot_at dst dst_slot).type == type_none)
    then none
    else some dst_slot

-- The common course of cap_copy and cap_mint, from the source slot's checks on. `change` is what
-- the new capability has of its own.
pub transfer : (Capability → Capability) → List Cspace → ℕ → ℕ → ℕ → ℕ → List Cspace × Option ℕ
transfer change spaces dst dst_slot src src_slot = elim (get_elem? spaces dst) [
  | none ↦ (spaces, none)
  | some d ↦ elim (get_elem? spaces src) [
    | none ↦ (spaces, none)
    | some s ↦
        if leb s.size src_slot
        then (spaces, none)
        else if (slot_at s src_slot).type == type_none
        then (spaces, none)
        else if not (has_right (slot_at s src_slot) right_grant)
        then (spaces, none)
        else elim (choose_slot d dst_slot) [
          | none ↦ (spaces, none)
          | some i ↦ (set spaces dst (fill_slot d i (change (slot_at s src_slot))), some i)
        ]
  ]
]

pub cap_copy : List Cspace → ℕ → ℕ → ℕ → ℕ → List Cspace × Option ℕ
cap_copy = transfer (λ cap. cap)

-- What cap_mint writes over the copied fields.
pub minted : ℕ → ℕ → Capability → Capability
minted new_rights badge cap = record cap { rights = bit_and cap.rights new_rights; badge = badge }

pub cap_mint : List Cspace → ℕ → ℕ → ℕ → ℕ → ℕ → ℕ → List Cspace × Option ℕ
cap_mint spaces dst dst_slot src src_slot new_rights badge =
    transfer (minted new_rights badge) spaces dst dst_slot src src_slot

pub cap_create_endpoint : Cspace → ℕ → ℕ → Cspace × Option ℕ
cap_create_endpoint cs ep rights =
    cap_insert cs (record empty_cap { type = type_endpoint; rights = rights; object = ep })

pub cap_create_notification : Cspace → ℕ → ℕ → Cspace × Option ℕ
cap_create_notification cs ntfn rights =
    cap_insert cs (record empty_cap { type = type_notification; rights = rights; object = ntfn })

-- NULL is `none`; the result is true for 0.
pub cap_check_rights : Option Capability → ℕ → Bool
cap_check_rights none required = false
cap_check_rights (some cap) required = bit_and cap.rights required == required

pub cap_get_endpoint : Cspace → ℕ → Option ℕ
cap_get_endpoint cs i = elim (cap_lookup cs i) [
  | none ↦ none
  | some cap ↦ if not (cap.type == type_endpoint) then none else some cap.object
]
