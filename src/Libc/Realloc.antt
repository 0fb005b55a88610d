-- ===== src/Libc/Realloc.antt =====
-- realloc as a whole.
use ocean_linux.Libc.Resize.{resize_at_lem, Resized, ResizedOrNone}
use ocean_linux.Libc.{Mem}
use ocean_linux.Libc.Copy.{memcpy_lem}
use ocean_linux.Libc.Release.{free_ptr_lem}
use ocean_linux.Libc.Memory.{memcpy}
use ocean_linux.Libc.Alloc.{Allocated, malloc_lem, Mallocs, align_up_size-large}
use ocean_linux.Libc.Blocks.{used_at, used_at-apart}
use ocean_linux.Libc.Heap.{
  Heap, move_payload, libc_heap_align, word_mod, realloc, malloc, align_up_size,
}
use ocean_linux.Base.{
  ℕ, Option, ◌≤◌, ◌≡◌, some, ◌≢◌, if◌then◌else◌, none, ltb, ◌==◌, ◌+◌, ◌<◌, ◌∙◌, Option-cases,
  arith, tests, inl, subst, ◌⊎◌, dec_lt, inr, ap, ◌-◌, sym, refl, false, ℕ_discrete,
}

-- A payload of `n` bytes at `p` was made one of at least `size` bytes at `q`.
pub record Reallocated (heap : Heap) (p n size : ℕ) (after : Heap) (q : ℕ) : Type 0 where
  pub payload : ℕ
  pub large : size ≤ payload
  pub used :
      (r : ℕ)
      → used_at 0 after.blocks r
        ≡ (if r == q then some payload else if r == p then none else used_at 0 heap.blocks r)
  pub contents : (i : ℕ) → i < n → i < size → after.bytes (q + i) ≡ heap.bytes (p + i)

abbrev pub Reallocs : Heap → ℕ → ℕ → ℕ → Heap → Option ℕ → Type 0
Reallocs heap p n size after none =
    ((r : ℕ) → used_at 0 after.blocks r ≡ used_at 0 heap.blocks r) × (after.bytes ≡ heap.bytes)
Reallocs heap p n size after (some q) = Reallocated heap p n size after q

-- The call returns, and the result is right.
abbrev Returns : Heap → ℕ → ℕ → ℕ → Option (Heap × Option ℕ) → Type 0
Returns heap p n size result =
    (out : Heap × Option ℕ) × (result ≡ some out) × Reallocs heap p n size out.0 out.1

in_other_order :
    (v w : Option ℕ) (x p q : ℕ)
    → q ≢ p
    → (if x == p then none else if x == q then v else w)
      ≡ (if x == q then v else if x == p then none else w)
in_other_order v w x p q other = elim (ℕ_discrete x p) [
  | yes e ↦ rw e (ground (arith, other))
  | no n ↦ ground (arith, n)
]

in_place :
    (v w : Option ℕ) (x p : ℕ)
    → (if x == p then v else w) ≡ (if x == p then v else if x == p then none else w)
in_place v w x p = ground arith

module _ (heap : Heap) (p n size : ℕ) (h : used_at 0 heap.blocks p ≡ some n) where
  abbrev count : ℕ
  count = if ltb n size then n else size

  -- The bytes that are copied are those of the old payload.
  moved_bytes :
      (after : Heap) (q : ℕ)
      → (a : Allocated heap size after q) → size + libc_heap_align ≤ word_mod
      → q ≢ p
      → (i : ℕ) → i < n
      → i < size
      → memcpy after.bytes q p count (q + i) ≡ heap.bytes (p + i)
  moved_bytes after q a low other i below_n below_size =
      let old : used_at 0 after.blocks p ≡ some n = a.used p ∙ ground (arith, other, h) in
      let new : used_at 0 after.blocks q ≡ some a.payload = a.used q ∙ ground arith in
      let few : count ≤ n = grind tests in
      let few' : count ≤ size = grind tests in
      let apart : (q + count ≤ p) ⊎ (p + count ≤ q) = elim (dec_lt p q) [
        | yes less ↦ inr (omega (arith, few, used_at-apart 0 after.blocks p q old new less))
        | no more ↦ inl (
            omega (
              arith,
              few',
              a.large low,
              used_at-apart 0 after.blocks q p new old (omega (arith, more, other)),
            ))
      ] in
      memcpy_lem after.bytes q p count (q + i) apart
      ∙ let e : p + (q + i - q) ≡ p + i = omega arith in
        let same : after.bytes (p + i) ≡ heap.bytes (p + i) =
          ap (λ (f : Mem). f (p + i)) a.same_bytes in
        rw e (ground (arith, below_n, below_size, same))

  no_clash : none ≡ some n → ⊥
  no_clash e = cc

  move_payload_lem :
      size + libc_heap_align ≤ word_mod → Returns heap p n size (move_payload heap p n size)
  unfolding move_payload
  move_payload_lem low =
      let out = malloc heap size in
      let lem = malloc_lem heap size in
      elim (Option-cases out.1) [
        | inl e ↦
            let m : Mallocs heap size out.0 none = subst (Mallocs heap size out.0) e lem in
            (
              out,
              rw (e, move_payload) refl,
              subst (Reallocs heap p n size out.0) (sym e) (m.1, m.2),
            )
        | inr (q, e) ↦
            let a : Allocated heap size out.0 q = subst (Mallocs heap size out.0) e lem in
            let other : q ≢ p =
              λ same. no_clash (sym a.was_free ∙ ap (used_at 0 heap.blocks) same ∙ h) in
            let moved : Heap = record out.0 { bytes = memcpy out.0.bytes q p count } in
            let old : used_at 0 moved.blocks p ≡ some n = a.used p ∙ ground (arith, other, h) in
            let (after, freed, r, bytes) = free_ptr_lem moved p old in
            (
              (after, some q),
              rw (e, freed, move_payload) refl,
              record {
                payload = a.payload;
                large = a.large low;
                used = λ x.
                    r.used x
                    ∙ rw (a.used x)
                        (in_other_order (some a.payload) (used_at 0 heap.blocks x) x p q other);
                contents = λ i below_n below_size.
                    ap (λ (f : Mem). f (q + i)) bytes
                    ∙ moved_bytes out.0 q a low other i below_n below_size;
              },
            )
      ]

-- realloc of a payload in use to a size that is not 0 and at most 2^64 - 16 always returns. Where it
-- returns a pointer, that has at least `size` bytes, starts with the bytes of the old payload, and
-- takes its place among the payloads in use, of which the others stay as they are. Where it
-- returns NULL, the payloads and the bytes are as they were.
pub realloc_lem :
    (heap : Heap) (p n size : ℕ)
    → used_at 0 heap.blocks p ≡ some n
    → size ≢ 0
    → size + libc_heap_align ≤ word_mod
    → (out : Heap × Option ℕ) × (realloc heap (some p) size ≡ some out)
      × Reallocs heap p n size out.0 out.1
unfolding realloc
realloc_lem heap p n size h bytes low =
    let aligned = align_up_size size in
    let nonzero : (size == 0) ≡ false = ground (arith, bytes) in
    let (r, e, resized) = resize_at_lem aligned p 0 heap.blocks h in
    elim (Option-cases r) [
      | inl moves ↦ rw (nonzero, e, moves, realloc) (move_payload_lem heap p n size h low)
      | inr (after, stays) ↦
          let s : Resized 0 aligned p heap.blocks after =
            subst (ResizedOrNone 0 aligned p heap.blocks) stays resized in
          (
            (record heap { blocks = after }, some p),
            rw (nonzero, e, stays, realloc) refl,
            record {
              payload = s.size;
              large = omega (arith, s.large, align_up_size-large size low);
              used = λ q. s.used q ∙ in_place (some s.size) (used_at 0 heap.blocks q) q p;
              contents = λ i below_n below_size. refl;
            },
          )
    ]
