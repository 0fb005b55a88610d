-- ===== src/Capability/Transfer.antt =====
-- cap_copy and cap_mint: when they succeed, what the new capability is, and what stays.
use ocean_linux.Capability.Lookup.{stored, cap_lookup-fill_slot}
use ocean_linux.Capability.Invariant.{IsValid, fill_slot-IsValid, free_slot}
use ocean_linux.Capability.Slots.{occupied}
use ocean_linux.Base.{
  ℕ, ◌≡◌, refl, true, List, get_elem?, Option, ◌⊎◌, some, set, none, ◌<◌, Option-cases, inl, inr,
  arith, Bool-cases, leb, ◌==◌, false, ◌^◌, ◌∙◌, ◌-◌, if◌then◌else◌, ◌&&◌, get_elem?-set_self,
  lt_of_get_elem?, get_elem?-set_ne, sym, ap, some_injective, bit_and,
}
use ocean_linux.Capability.{
  Capability, Cspace, transfer, fill_slot, slot_at, choose_slot, has_right, right_grant, type_none,
  cap_lookup, cap_copy, cap_mint, minted,
}

-- The conditions under which a transfer goes through, with the spaces and the slot that it finds.
pub record Accepted (spaces : List Cspace) (dst dst_slot src src_slot : ℕ) : Type 0 where
  pub target : Cspace
  pub source : Cspace
  pub slot : ℕ
  pub target_found : get_elem? spaces dst ≡ some target
  pub source_found : get_elem? spaces src ≡ some source
  pub inside : src_slot < source.size
  pub present : occupied (slot_at source src_slot) ≡ true
  pub granted : has_right (slot_at source src_slot) right_grant ≡ true
  pub chosen : choose_slot target dst_slot ≡ some slot

module _ (change : Capability → Capability) (spaces : List Cspace)
    (dst dst_slot src src_slot : ℕ) where
  -- What an accepted transfer returns.
  abbrev pub accept : Accepted spaces dst dst_slot src src_slot → List Cspace × Option ℕ
  accept a =
      (set spaces dst (fill_slot a.target a.slot (change (slot_at a.source src_slot))), some a.slot)

  -- A transfer either goes through under all its conditions or changes nothing and returns -1.
  pub transfer_cases :
      ((a : Accepted spaces dst dst_slot src src_slot) × (transfer change spaces dst dst_slot src
            src_slot
          ≡ accept a))
      ⊎ (transfer change spaces dst dst_slot src src_slot ≡ (spaces, none))
  unfolding transfer
  transfer_cases = elim (Option-cases (get_elem? spaces dst)) [
    | inl e ↦ inr (rw (e, transfer) refl)
    | inr (d, ed) ↦ elim (Option-cases (get_elem? spaces src)) [
      | inl e ↦ inr (rw (ed, e, transfer) refl)
      | inr (s, es) ↦ elim (Option-cases (choose_slot d dst_slot)) [
        | inl e ↦ inr (ground arith)
        | inr (i, ei) ↦ elim (Bool-cases (leb s.size src_slot)) [
          | inl out ↦ inr (ground arith)
          | inr inside ↦ elim (Bool-cases ((slot_at s src_slot).type == type_none)) [
            | inl absent ↦ inr (ground arith)
            | inr present ↦ elim (Bool-cases (has_right (slot_at s src_slot) right_grant)) [
              | inr denied ↦ inr (ground arith)
              | inl granted ↦ inl (
                record {
                  target = d;
                  source = s;
                  slot = i;
                  target_found = ed;
                  source_found = es;
                  inside = ground arith;
                  present = ground arith;
                  granted = granted;
                  chosen = ei;
                },
                ground arith,
              )
            ]
          ]
        ]
      ]
    ]
  ]

-- The capability in slot `i` of space `p`, if there is one.
unfoldable pub cap_at : List Cspace → ℕ → ℕ → Option Capability
cap_at spaces p i = elim (get_elem? spaces p) [ none ↦ none | some cs ↦ cap_lookup cs i ]

pub record AllValid (spaces : List Cspace) : Type 0 where
  pub each : (p : ℕ) (cs : Cspace) → get_elem? spaces p ≡ some cs → IsValid cs

choose_slot-free :
    {d : Cspace}
    → IsValid d
    → (dst_slot : ℕ) {i : ℕ} → choose_slot d dst_slot ≡ some i
    → (i < d.size) × (occupied (slot_at d i) ≡ false)
unfolding choose_slot
choose_slot-free {d} v dst_slot {i} e = elim (Bool-cases (dst_slot == 2 ^ 32 - 1)) [
  | inl any ↦ free_slot v (rw (any, choose_slot) at e)
  | inr given ↦ ground arith
]

module _ {spaces : List Cspace} (valid : AllValid spaces) (dst dst_slot src src_slot : ℕ) where
  pub Accepted-IsValid :
      (change : Capability → Capability)
      → ((c : Capability) → occupied (change c) ≡ occupied c)
      → (a : Accepted spaces dst dst_slot src src_slot)
      → IsValid (fill_slot a.target a.slot (change (slot_at a.source src_slot)))
  Accepted-IsValid change keeps a =
      let v = valid.each dst a.target a.target_found in
      let free = choose_slot-free v dst_slot a.chosen in
      fill_slot-IsValid v a.slot free.0 _ free.1 (keeps _ ∙ a.present)

  transfer_lookup :
      (change : Capability → Capability)
      → ((c : Capability) → occupied (change c) ≡ occupied c)
      → (a : Accepted spaces dst dst_slot src src_slot) (q j : ℕ)
      → cap_at (accept change spaces dst dst_slot src src_slot a).0 q j ≡ (
          if dst == q && a.slot == j
          then some (stored a.target a.slot (change (slot_at a.source src_slot)))
          else cap_at spaces q j)
  unfolding cap_at
  transfer_lookup change keeps a q j =
      let v = valid.each dst a.target a.target_found in
      let free = choose_slot-free v dst_slot a.chosen in
      let new = change (slot_at a.source src_slot) in
      ground (
        arith,
        a.target_found,
        get_elem?-set_self spaces dst (fill_slot a.target a.slot new)
            (lt_of_get_elem? spaces dst a.target_found),
        get_elem?-set_ne spaces dst q (fill_slot a.target a.slot new),
        cap_lookup-fill_slot v a.slot new free.0 (keeps _ ∙ a.present) j,
      )

-- What a transfer into slot `i` of space `dst` has done: the source slot held `parent`, with the
-- GRANT right; the target slot was empty and holds the changed copy, and no other slot of any
-- space has changed.
pub record Transferred (change : Capability → Capability) (spaces after : List Cspace)
    (dst i src src_slot : ℕ) : Type 0 where
  pub parent : Capability
  pub target : Cspace
  pub target_found : get_elem? spaces dst ≡ some target
  pub parent_found : cap_at spaces src src_slot ≡ some parent
  pub granted : has_right parent right_grant ≡ true
  pub was_empty : cap_at spaces dst i ≡ none
  pub lookups :
      (q j : ℕ)
      → cap_at after q j
        ≡ (if dst == q && i == j then some (stored target i (change parent)) else cap_at spaces q j)

module _ {spaces after : List Cspace} (valid : AllValid spaces)
    (dst dst_slot src src_slot i : ℕ) where
  pub transfer-Transferred :
      (change : Capability → Capability)
      → ((c : Capability) → occupied (change c) ≡ occupied c)
      → transfer change spaces dst dst_slot src src_slot ≡ (after, some i)
      → Transferred change spaces after dst i src src_slot
  unfolding cap_at cap_lookup
  transfer-Transferred change keeps e =
      elim (transfer_cases change spaces dst dst_slot src src_slot) [
        | inr failed ↦ absurd (none_ne_some (ap (λ r. r.1) (sym failed ∙ e)))
        | inl (a, done) ↦
            let v = valid.each dst a.target a.target_found in
            let out = sym done ∙ e in
            let same : a.slot ≡ i = some_injective (ap (λ r. r.1) out) in
            let free = choose_slot-free v dst_slot a.chosen in
            record {
              parent = slot_at a.source src_slot;
              target = a.target;
              target_found = a.target_found;
              parent_found = rw (a.source_found, cap_at) (ground (arith, a.inside, a.present));
              granted = a.granted;
              was_empty = rw (← same) (rw (a.target_found, cap_at) (ground (arith, free)));
              lookups = λ q j.
                  rw (← same, ← ap (λ r. r.0) out)
                    (transfer_lookup valid dst dst_slot src src_slot change keeps a q j);
            }
      ]
    where
      none_ne_some : none ≡ some i → ⊥
      none_ne_some h = cc

pub minted-occupied :
    (rights badge : ℕ) (c : Capability) → occupied (minted rights badge c) ≡ occupied c
unfolding minted
minted-occupied rights badge c = refl

module _ {spaces after : List Cspace} (valid : AllValid spaces)
    (dst dst_slot src src_slot i : ℕ) where
  -- A successful cap_copy into valid spaces fills an empty slot with the source's capability,
  -- which has the GRANT right, and changes no other slot.
  pub cap_copy_lem :
      cap_copy spaces dst dst_slot src src_slot ≡ (after, some i)
      → Transferred (λ c. c) spaces after dst i src src_slot
  unfolding cap_copy
  cap_copy_lem = transfer-Transferred valid dst dst_slot src src_slot i (λ c. c) (λ c. refl)

  -- A successful cap_mint into valid spaces fills an empty slot with the source's capability,
  -- which has the GRANT right, with the rights cut down to those asked for and the badge set, and
  -- changes no other slot.
  pub cap_mint_lem :
      (rights badge : ℕ)
      → cap_mint spaces dst dst_slot src src_slot rights badge ≡ (after, some i)
      → Transferred
          (λ c. record c { rights = bit_and c.rights rights; badge = badge })
          spaces
          after
          dst
          i
          src
          src_slot
  unfolding cap_mint minted
  cap_mint_lem rights badge =
      transfer-Transferred valid dst dst_slot src src_slot i (minted rights badge)
        (minted-occupied rights badge)
