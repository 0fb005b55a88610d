-- ===== src/Capability/Authority.antt =====
-- Authority: which rights over which objects are held, in any slot of any space.
use ocean_linux.Capability.Lookup.{
  stored, cap_insert-none, cap_lookup-cap_insert, cap_lookup-cap_delete, cap_lookup-cap_revoke,
}
use ocean_linux.Capability.Slots.{occupied}
use ocean_linux.Capability.Invariant.{IsValid}
use ocean_linux.Capability.Transfer.{
  cap_at, AllValid, transfer_cases, transfer-Transferred, minted-occupied,
}
use ocean_linux.Capability.Steps.{
  Call, at_space, create_endpoint, create_notification, copy, mint, delete, revoke, step, run,
  step-AllValid,
}
use ocean_linux.Base.Bits.{bit, bit-bit_and}
use ocean_linux.Base.{
  ℕ, ◌≡◌, refl, true, List, ◌∷◌, ◌⊎◌, some, [], get_elem?, inl, Option-cases, arith, inr,
  ℕ_discrete, get_elem?-set_ne, Bool-cases, get_elem?-set_self, ◌==◌, ◌&&◌, subst, lt_of_get_elem?,
  sym, some_injective, ◌∙◌,
}
use ocean_linux.Capability.{
  Capability, Cspace, type_endpoint, type_notification, cap_lookup, cap_create_endpoint,
  cap_create_notification, cap_insert, cap_copy, transfer, cap_mint, minted,
}

-- A right over an object, which its type and its address name.
pub record Right : Type 0 where
  pub type : ℕ
  pub object : ℕ
  pub right : ℕ

abbrev pub Gives : Capability → Right → Type 0
Gives c r = (c.type ≡ r.type) × (c.object ≡ r.object) × (bit c.rights r.right ≡ true)

-- Some slot of some space holds a capability that gives the right.
pub record Held (spaces : List Cspace) (r : Right) : Type 0 where
  pub space : ℕ
  pub slot : ℕ
  pub holder : Capability
  pub found : cap_at spaces space slot ≡ some holder
  pub gives : Gives holder r

-- The creation calls bring rights into the system; the calls of processes bring none.
abbrev pub Creates : Call → Right → Type 0
Creates (create_endpoint p ep rights) r =
    (type_endpoint ≡ r.type) × (ep ≡ r.object) × (bit rights r.right ≡ true)
Creates (create_notification p n rights) r =
    (type_notification ≡ r.type) × (n ≡ r.object) × (bit rights r.right ≡ true)
Creates (copy _ _ _ _) r = ⊥
Creates (mint _ _ _ _ _ _) r = ⊥
Creates (delete _ _) r = ⊥
Creates (revoke _ _) r = ⊥

abbrev pub AnyCreates : List Call → Right → Type 0
AnyCreates [] r = ⊥
AnyCreates (c ∷ calls) r = Creates c r ⊎ AnyCreates calls r

-- Every capability found afterwards was found before, or gives a right that `P` allows.
abbrev Origin : List Cspace → List Cspace → Right → Type 0 → Type 0
Origin before after r P =
    (q j : ℕ) (c : Capability) → cap_at after q j ≡ some c → Gives c r → Held before r ⊎ P

at_space-Origin :
    (spaces : List Cspace) (p : ℕ) (f : Cspace → Cspace) (r : Right) (P : Type 0)
    → ((cs : Cspace) (j : ℕ) (c : Capability)
        → get_elem? spaces p ≡ some cs
        → cap_lookup (f cs) j ≡ some c
        → Gives c r
        → (cap_lookup cs j ≡ some c) ⊎ P)
    → Origin spaces (at_space spaces p f) r P
unfolding at_space cap_at
at_space-Origin spaces p f r P each q j c e g = elim (Option-cases (get_elem? spaces p)) [
  | inl missing ↦ inl (record { space = q; slot = j; holder = c; found = ground arith; gives = g })
  | inr (cs, here) ↦ elim (ℕ_discrete p q) [
    | no other ↦ inl (record {
      space = q;
      slot = j;
      holder = c;
      found = ground (arith, get_elem?-set_ne spaces p q (f cs) other);
      gives = g;
    })
    | yes same ↦
        let new = get_elem?-set_self spaces p (f cs) (lt_of_get_elem? spaces p here) in
        elim (each cs j c here (ground arith) g) [
          | inl old ↦
              inl (record {
                space = p;
                slot = j;
                holder = c;
                found = rw (here, cap_at) old;
                gives = g;
              })
          | inr allowed ↦ inr allowed
        ]
  ]
]

insert_Origin :
    {cs : Cspace}
    → IsValid cs
    → (new : Capability) → occupied new ≡ true
    → (r : Right) (j : ℕ) (c : Capability) → cap_lookup (cap_insert cs new).0 j ≡ some c
    → Gives c r
    → (cap_lookup cs j ≡ some c) ⊎ Gives new r
insert_Origin {cs} v new full r j c e g = elim (Option-cases (cap_insert cs new).1) [
  | inl failed ↦ inl (rw (cap_insert-none new failed) at e)
  | inr (i, done) ↦
      let law = (cap_lookup-cap_insert v new i full done).1 j in
      elim (Bool-cases (i == j)) [
        | inr other ↦ inl (ground (arith, law))
        | inl same ↦
            let here : some (stored cs i new) ≡ some c = ground (arith, law) in
            inr (subst (λ x. Gives x r) (sym (some_injective here)) g)
      ]
]

transfer_Origin :
    {spaces : List Cspace}
    → AllValid spaces
    → (change : Capability → Capability) → ((c : Capability) → occupied (change c) ≡ occupied c)
    → (r : Right)
    → ((c : Capability) (target : Cspace) (i : ℕ)
        → Gives (stored target i (change c)) r
        → Gives c r)
    → (dst dst_slot src src_slot : ℕ)
    → Origin spaces (transfer change spaces dst dst_slot src src_slot).0 r ⊥
transfer_Origin {spaces} valid change keeps r weaker dst dst_slot src src_slot q j c e g =
    elim (transfer_cases change spaces dst dst_slot src src_slot) [
      | inr failed ↦
          inl (record { space = q; slot = j; holder = c; found = rw failed at e; gives = g })
      | inl (a, done) ↦
          let t = transfer-Transferred valid dst dst_slot src src_slot a.slot change keeps done in
          elim (Bool-cases (dst == q && a.slot == j)) [
            | inr other ↦ inl (record {
              space = q;
              slot = j;
              holder = c;
              found = ground (arith, t.lookups q j);
              gives = g;
            })
            | inl same ↦
                let here : some (stored t.target a.slot (change t.parent)) ≡ some c =
                  ground (arith, t.lookups q j) in
                inl (record {
                  space = src;
                  slot = src_slot;
                  holder = t.parent;
                  found = t.parent_found;
                  gives =
                      weaker t.parent t.target a.slot
                        (subst (λ x. Gives x r) (sym (some_injective here)) g);
                })
          ]
    ]

-- A right that some capability gives after a call was held before it, or the call created it.
pub step_authority :
    {spaces : List Cspace} (c : Call) (r : Right)
    → AllValid spaces
    → Held (step spaces c) r
    → Held spaces r ⊎ Creates c r
unfolding step cap_create_endpoint cap_create_notification cap_copy cap_mint minted
step_authority {spaces} (create_endpoint p ep rights) r valid h =
    at_space-Origin spaces p _ r _
      (λ cs j c here e g. insert_Origin (valid.each p cs here) _ refl r j c e g) h.space h.slot
      h.holder h.found h.gives
step_authority {spaces} (create_notification p n rights) r valid h =
    at_space-Origin spaces p _ r _
      (λ cs j c here e g. insert_Origin (valid.each p cs here) _ refl r j c e g) h.space h.slot
      h.holder h.found h.gives
step_authority {spaces} (copy dst dst_slot src src_slot) r valid h =
    transfer_Origin valid _ (λ c. refl) r (λ c t i g. g) dst dst_slot src src_slot h.space h.slot
      h.holder h.found h.gives
step_authority {spaces} (mint dst dst_slot src src_slot rights badge) r valid h =
    transfer_Origin valid _ (minted-occupied rights badge) r
      (λ c t i g. (g.0, g.1, ground (arith, bit-bit_and c.rights rights r.right))) dst dst_slot src
      src_slot h.space h.slot h.holder h.found h.gives
step_authority {spaces} (delete p i) r valid h =
    at_space-Origin spaces p _ r _
      (λ cs j c here e g. inl (ground (arith, cap_lookup-cap_delete (valid.each p cs here) i j)))
      h.space h.slot h.holder h.found h.gives
step_authority {spaces} (revoke p i) r valid h =
    at_space-Origin spaces p _ r _ (λ cs j c here e g. inl (sym (cap_lookup-cap_revoke cs i j) ∙ e))
      h.space h.slot h.holder h.found h.gives

-- No history of copying, minting, deleting and revoking forges a right: what is held at the end
-- was held at the start or was created by a creation call of the history.
pub run_authority :
    (spaces : List Cspace) (calls : List Call) (r : Right)
    → AllValid spaces
    → Held (run spaces calls) r
    → Held spaces r ⊎ AnyCreates calls r
unfolding run
run_authority spaces [] r valid h = inl h
run_authority spaces (c ∷ calls) r valid h =
    elim (run_authority (step spaces c) calls r (step-AllValid c valid) h) [
      | inr later ↦ inr (inr later)
      | inl now ↦ elim (step_authority c r valid now) [
        | inl before ↦ inl before
        | inr created ↦ inr (inl created)
      ]
    ]
