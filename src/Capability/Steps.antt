-- ===== src/Capability/Steps.antt =====
-- Histories of calls on the capability spaces of all processes.
use ocean_linux.Capability.Slots.{occupied}
use ocean_linux.Capability.Transfer.{AllValid, minted-occupied, transfer_cases, Accepted-IsValid}
use ocean_linux.Base.{
  ℕ, ◌≡◌, refl, List, get_elem?, set, Option-cases, inl, ℕ_discrete, sym, inr, get_elem?-set_ne,
  ◌∙◌, ◌∷◌, ◌<◌, lt_of_get_elem?, none, some, length, get_elem?-set_self, [], some_injective,
}
use ocean_linux.Capability.{
  Capability, Cspace, cap_create_endpoint, cap_create_notification, cap_copy, cap_mint, cap_delete,
  cap_revoke, transfer,
}
use ocean_linux.Capability.Invariant.{
  IsValid, cap_insert-IsValid, cap_delete-IsValid, cap_revoke-IsValid,
}

-- The calls of the kernel: the two that create capabilities, and the five that a process asks for.
pub data Call : Type 0 where
  create_endpoint create_notification : ℕ → ℕ → ℕ → Call
  copy : ℕ → ℕ → ℕ → ℕ → Call
  mint : ℕ → ℕ → ℕ → ℕ → ℕ → ℕ → Call
  delete revoke : ℕ → ℕ → Call

-- A call on the space that `p` points at; none on NULL.
unfoldable pub at_space : List Cspace → ℕ → (Cspace → Cspace) → List Cspace
at_space spaces p f = elim (get_elem? spaces p) [ none ↦ spaces | some cs ↦ set spaces p (f cs) ]

unfoldable pub step : List Cspace → Call → List Cspace
unfolding at_space
step spaces (create_endpoint p ep rights) =
    at_space spaces p (λ cs. (cap_create_endpoint cs ep rights).0)
step spaces (create_notification p n rights) =
    at_space spaces p (λ cs. (cap_create_notification cs n rights).0)
step spaces (copy dst dst_slot src src_slot) = (cap_copy spaces dst dst_slot src src_slot).0
step spaces (mint dst dst_slot src src_slot rights badge) =
    (cap_mint spaces dst dst_slot src src_slot rights badge).0
step spaces (delete p i) = at_space spaces p (λ cs. (cap_delete cs i).0)
step spaces (revoke p i) = at_space spaces p (λ cs. (cap_revoke cs i).0)

unfoldable pub run : List Cspace → List Call → List Cspace
run spaces [] = spaces
run spaces (c ∷ cs) = run (step spaces c) cs

set-AllValid :
    {spaces : List Cspace}
    → AllValid spaces
    → (p : ℕ) (new : Cspace) → p < length spaces
    → IsValid new
    → AllValid (set spaces p new)
set-AllValid {spaces} valid p new inside v = record {
  each = λ q cs e. elim (ℕ_discrete p q) [
    | yes same ↦
        let found : some cs ≡ some new =
          sym e ∙ rw (← same) (get_elem?-set_self spaces p new inside) in
        rw (some_injective found) v
    | no other ↦ valid.each q cs (sym (get_elem?-set_ne spaces p q new other) ∙ e)
  ];
}

at_space-AllValid :
    {spaces : List Cspace}
    → AllValid spaces
    → (p : ℕ) (f : Cspace → Cspace) → ((cs : Cspace) → IsValid cs → IsValid (f cs))
    → AllValid (at_space spaces p f)
unfolding at_space
at_space-AllValid {spaces} valid p f keep = elim (Option-cases (get_elem? spaces p)) [
  | inl e ↦ rw (e, at_space) valid
  | inr (cs, e) ↦
      rw (e, at_space)
        (set-AllValid valid p (f cs) (lt_of_get_elem? spaces p e) (keep cs (valid.each p cs e)))
]

transfer-AllValid :
    {spaces : List Cspace}
    → AllValid spaces
    → (change : Capability → Capability) → ((c : Capability) → occupied (change c) ≡ occupied c)
    → (dst dst_slot src src_slot : ℕ)
    → AllValid (transfer change spaces dst dst_slot src src_slot).0
transfer-AllValid {spaces} valid change keeps dst dst_slot src src_slot =
    elim (transfer_cases change spaces dst dst_slot src src_slot) [
      | inr failed ↦ rw failed valid
      | inl (a, done) ↦ rw done (
          set-AllValid valid dst _ (lt_of_get_elem? spaces dst a.target_found)
            (Accepted-IsValid valid dst dst_slot src src_slot change keeps a))
    ]

-- Every call keeps all capability spaces valid.
pub step-AllValid : {spaces : List Cspace} (c : Call) → AllValid spaces → AllValid (step spaces c)
unfolding step cap_create_endpoint cap_create_notification cap_copy cap_mint
step-AllValid (create_endpoint p ep rights) valid =
    at_space-AllValid valid p _ (λ cs v. cap_insert-IsValid v _ refl)
step-AllValid (create_notification p n rights) valid =
    at_space-AllValid valid p _ (λ cs v. cap_insert-IsValid v _ refl)
step-AllValid (copy dst dst_slot src src_slot) valid =
    transfer-AllValid valid _ (λ c. refl) dst dst_slot src src_slot
step-AllValid (mint dst dst_slot src src_slot rights badge) valid =
    transfer-AllValid valid _ (minted-occupied rights badge) dst dst_slot src src_slot
step-AllValid (delete p i) valid = at_space-AllValid valid p _ (λ cs v. cap_delete-IsValid v i)
step-AllValid (revoke p i) valid = at_space-AllValid valid p _ (λ cs v. cap_revoke-IsValid v i)

-- After any history of calls on valid spaces, the bitmap, the slots and the counter of every
-- space agree.
pub run-AllValid :
    (spaces : List Cspace) (calls : List Call) → AllValid spaces → AllValid (run spaces calls)
unfolding run
run-AllValid spaces [] valid = valid
run-AllValid spaces (c ∷ calls) valid = run-AllValid (step spaces c) calls (step-AllValid c valid)
