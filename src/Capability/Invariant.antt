-- ===== src/Capability/Invariant.antt =====
-- The invariant of a capability space: its bitmap, its slots and its counter agree. Every
-- operation on one space keeps it.
use ocean_linux.Base.{
  ℕ, zero, suc, ◌*◌, ◌/◌, ◌≤◌, ◌<◌, ◌≡◌, refl, inl, inr, true, false, Option, none, some, List,
  if◌then◌else◌, ◌==◌, arith, Bool-cases, Option-cases, length, length-set, get_or, get_or-set,
  get_or-replicate, set, replicate, ◌∙◌, leb, subst, ◌↔◌, sym,
}
use ocean_linux.Base.BitArray.{
  test_bit, AreWords, test_bit-set_bit, test_bit-clear_bit, length-set_bit, length-clear_bit,
  set_bit-AreWords, clear_bit-AreWords, zeros-AreWords, test_bit-zeros,
}
use ocean_linux.Capability.{
  Capability, Cspace, empty_cap, type_none, cspace_max_size, slot_at, cspace_init, cspace_destroy,
  cspace_find_free_slot, fill_slot, cap_insert, cap_delete, cap_revoke, cspace_mark_free,
  cspace_size,
}
use ocean_linux.Capability.Slots.{
  occupied, count, count-set, count-lt, count-le-length, full-count, Finds, find_free_from-Finds,
}

pub record IsValid (cs : Cspace) : Type 0 where
  pub sized : length cs.slots ≡ cs.size
  pub small : cs.size ≤ cspace_max_size
  pub room : cs.size ≤ 64 * length cs.bitmap
  pub words : AreWords cs.bitmap
  pub marked : (i : ℕ) → i < cs.size → test_bit cs.bitmap i ≡ occupied (slot_at cs i)
  pub counted : cs.used ≡ count cs.slots

count-empty : (n : ℕ) → count (replicate n empty_cap) ≡ 0
unfolding count
count-empty zero = refl
count-empty (suc n) = omega (arith, count-empty n)

-- A space that cspace_init has set up is valid.
pub cspace_init-IsValid : IsValid cspace_init
unfolding cspace_init
cspace_init-IsValid = record {
  sized = refl;
  small = omega arith;
  room = omega arith;
  words = zeros-AreWords 4;
  marked = λ i h. rw (test_bit-zeros 4 i, get_or-replicate cspace_size i empty_cap) refl;
  counted = sym (count-empty cspace_size);
}

pub cspace_destroy-IsValid : (cs : Cspace) → IsValid (cspace_destroy cs)
unfolding cspace_destroy count
cspace_destroy-IsValid cs = record {
  sized = refl;
  small = omega arith;
  room = omega arith;
  words = λ k. omega arith;
  marked = λ i h. absurd (omega arith);
  counted = refl;
}

module _ {cs : Cspace} (v : IsValid cs) (i : ℕ) (inside : i < cs.size) where
  pub word_inside : i / 64 < length cs.bitmap
  word_inside = omega (arith, v.room)

  marked-set :
      (c : Capability) (bits : List ℕ)
      → ((j : ℕ) → test_bit bits j ≡ (if i == j then occupied c else test_bit cs.bitmap j))
      → (j : ℕ) → j < cs.size
      → test_bit bits j ≡ occupied (get_or (set cs.slots i c) j empty_cap)
  marked-set c bits law j h =
      ground (arith, law j, v.marked j h, v.sized, get_or-set cs.slots i j c empty_cap)

  -- A free slot that takes a capability.
  pub fill_slot-IsValid :
      (c : Capability)
      → occupied (slot_at cs i) ≡ false
      → occupied c ≡ true
      → IsValid (fill_slot cs i c)
  unfolding fill_slot
  fill_slot-IsValid c empty full = record {
    sized = length-set cs.slots i _ ∙ v.sized;
    small = v.small;
    room = omega (arith, v.room, length-set_bit cs.bitmap i);
    words = set_bit-AreWords cs.bitmap i word_inside v.words;
    marked = marked-set _ _ (λ j. rw full (test_bit-set_bit cs.bitmap i word_inside j));
    counted = ground (
      arith,
      v.counted,
      v.sized,
      v.small,
      count-lt cs.slots i,
      count-set cs.slots i (record c { slot = i; generation = cs.generation }),
    );
  }

  clear_slot-IsValid :
      occupied (slot_at cs i) ≡ true
      → IsValid (cspace_mark_free (record cs { slots = set cs.slots i empty_cap }) i)
  unfolding cspace_mark_free
  clear_slot-IsValid full = record {
    sized = length-set cs.slots i _ ∙ v.sized;
    small = v.small;
    room = omega (arith, v.room, length-clear_bit cs.bitmap i);
    words = clear_bit-AreWords cs.bitmap i word_inside v.words;
    marked = marked-set empty_cap _ (test_bit-clear_bit cs.bitmap i word_inside);
    counted = ground (
      arith,
      v.counted,
      v.sized,
      v.small,
      count-le-length cs.slots,
      count-set cs.slots i empty_cap,
    );
  }

-- cap_delete keeps a valid space valid, whatever the slot number.
pub cap_delete-IsValid : {cs : Cspace} → IsValid cs → (i : ℕ) → IsValid (cap_delete cs i).0
unfolding cap_delete
cap_delete-IsValid {cs} v i = elim (Bool-cases (leb cs.size i)) [
  | inl out ↦ rw out v
  | inr inside ↦ rw inside (elim (Bool-cases ((slot_at cs i).type == type_none)) [
    | inl empty ↦ rw empty v
    | inr full ↦ rw full (clear_slot-IsValid v i (ground arith) (ground arith))
  ])
]

pub cap_revoke-IsValid : {cs : Cspace} → IsValid cs → (i : ℕ) → IsValid (cap_revoke cs i).0
unfolding cap_revoke
cap_revoke-IsValid {cs} v i = grind arith

pub cspace_find_free_slot-Finds :
    (cs : Cspace) → Finds cs.bitmap 0 cs.size (cspace_find_free_slot cs)
unfolding cspace_find_free_slot
cspace_find_free_slot-Finds cs = find_free_from-Finds cs.size 0 cs.bitmap

-- A slot that a successful search names lies in the space and is empty.
pub free_slot :
    {cs : Cspace}
    → IsValid cs
    → {i : ℕ} → cspace_find_free_slot cs ≡ some i
    → (i < cs.size) × (occupied (slot_at cs i) ≡ false)
free_slot {cs} v {i} e =
    let f = subst (Finds cs.bitmap 0 cs.size) e (cspace_find_free_slot-Finds cs) in
    (omega (arith, f.1), sym (v.marked i (omega (arith, f.1))) ∙ f.2)

-- cap_insert keeps a valid space valid, if the capability has a type.
pub cap_insert-IsValid :
    {cs : Cspace} → IsValid cs → (c : Capability) → occupied c ≡ true → IsValid (cap_insert cs c).0
unfolding cap_insert
cap_insert-IsValid {cs} v c full = elim (Option-cases (cspace_find_free_slot cs)) [
  | inl e ↦ rw (e, cap_insert) v
  | inr (i, e) ↦
      let free = free_slot v e in rw (e, cap_insert) (fill_slot-IsValid v i free.0 c free.1 full)
]

-- No clear bit means that every slot is in use.
full_of_none : {cs : Cspace} → IsValid cs → cspace_find_free_slot cs ≡ none → cs.used ≡ cs.size
full_of_none {cs} v e =
    let f = subst (Finds cs.bitmap 0 cs.size) e (cspace_find_free_slot-Finds cs) in
    v.counted
    ∙ full-count cs.slots (λ i h.
      sym (v.marked i (omega (arith, v.sized))) ∙ f i (omega arith) (omega (arith, v.sized)))
    ∙ v.sized

room_of_some :
    {cs : Cspace} → IsValid cs → {i : ℕ} → cspace_find_free_slot cs ≡ some i → cs.used < cs.size
room_of_some {cs} v {i} e =
    let free = free_slot v e in
    omega (arith, v.counted, v.sized, count-lt cs.slots i (omega (arith, v.sized)) free.1)

-- cap_insert fails exactly when every slot of a valid space is in use.
pub cap_insert-none_iff :
    {cs : Cspace} (c : Capability) → IsValid cs → ((cap_insert cs c).1 ≡ none) ↔ (cs.used ≡ cs.size)
unfolding cap_insert
cap_insert-none_iff {cs} c v = elim (Option-cases (cspace_find_free_slot cs)) [
  | inl e ↦ (λ _. full_of_none v e, λ _. rw (e, cap_insert) refl)
  | inr (i, e) ↦ (
    λ h. absurd (some_ne_none (subst (λ r. (insert_result r).1 ≡ none) e h)),
    λ h. absurd (omega (arith, room_of_some v e)),
  )
]
  where
    some_ne_none : {i : ℕ} → some i ≡ none → ⊥
    some_ne_none h = cc

    insert_result : Option ℕ → Cspace × Option ℕ
    insert_result r = elim r [ none ↦ (cs, none) | some i ↦ (fill_slot cs i c, some i) ]
