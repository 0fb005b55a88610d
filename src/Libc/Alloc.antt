-- ===== src/Libc/Alloc.antt =====
-- What malloc does.
use ocean_linux.Libc.Blocks.{
  used_at, trimmed, total_size, claim-trim, trim-used_at, trim-total_size,
}
use ocean_linux.Libc.Heap.{
  Block, find_fit, header_size, claim, trim, heap_init, malloc, align_up_size, Heap,
  libc_heap_align, word_mod,
}
use ocean_linux.Base.{
  ℕ, List, ◌∷◌, Option, ◌+◌, ◌≤◌, ◌≡◌, some, true, ◌<◌, Bool-cases, none, arith, ap, [], not,
  if◌then◌else◌, ◌||◌, ◌==◌, ltb, ◌∙◌, inr, inl, Option-cases, false, tests, ℕ_discrete, refl, ◌⊎◌,
  subst, sym,
}

-- No block of the list is free and large enough.
abbrev pub NoFit : ℕ → List Block → Type 0
NoFit aligned [] = Unit
NoFit aligned (b ∷ bs) = (b.free ≡ true → b.size < aligned) × NoFit aligned bs

-- The blocks with a payload of at least `wanted` bytes at `p`, which was not in use.
pub record Fits (at wanted : ℕ) (bs after : List Block) (p : ℕ) : Type 0 where
  pub size : ℕ
  pub large : wanted ≤ size
  pub behind : at + header_size ≤ p
  pub was_free : used_at at bs p ≡ none
  pub used : (q : ℕ) → used_at at after q ≡ (if q == p then some size else used_at at bs q)
  pub same_total : total_size after ≡ total_size bs

abbrev pub FitsOrNone : ℕ → ℕ → List Block → Option (List Block × ℕ) → Type 0
FitsOrNone aligned at bs none = NoFit aligned bs
FitsOrNone aligned at bs (some out) = Fits at aligned bs out.0 out.1

-- A block that is kept in front.
keep_block :
    (aligned at : ℕ) (b : Block) (bs after : List Block) (p : ℕ)
    → Fits (at + header_size + b.size) aligned bs after p
    → Fits at aligned (b ∷ bs) (b ∷ after) p
keep_block aligned at b bs after p f = record {
  size = f.size;
  large = f.large;
  behind = omega (arith, f.behind);
  was_free = ground (arith, f.behind, f.was_free);
  used = λ q. elim (ℕ_discrete q p) [
    | yes e ↦ rw e (ground (arith, f.used p, f.behind))
    | no n ↦ ground (arith, f.used q, n)
  ];
  same_total = ap (λ n. header_size + b.size + n) f.same_total;
}

claim_block :
    (aligned at : ℕ) (b : Block) (bs : List Block)
    → b.free ≡ true
    → aligned ≤ b.size
    → Fits at aligned (b ∷ bs) (claim (trim b aligned bs)) (at + header_size)
claim_block aligned at b bs free fits = record {
  size = trimmed b aligned;
  large = ground (arith, fits);
  behind = omega arith;
  was_free = rw free (ground arith);
  used = λ q.
      ap (λ blocks. used_at at blocks q) (claim-trim b aligned bs)
      ∙ trim-used_at (record b { free = false }) aligned at bs q
      ∙ ground arith;
  same_total =
      ap total_size (claim-trim b aligned bs)
      ∙ trim-total_size (record b { free = false }) aligned bs;
}

find_fit_lem :
    (aligned at : ℕ) (bs : List Block) → FitsOrNone aligned at bs (find_fit aligned at bs)
unfolding find_fit
find_fit_lem aligned at [] = tt
find_fit_lem aligned at (b ∷ bs) =
    let later = find_fit aligned (at + header_size + b.size) bs in
    let ih = find_fit_lem aligned (at + header_size + b.size) bs in
    elim (Bool-cases (not b.free || ltb b.size aligned)) [
      | inr found ↦
          rw (found, find_fit)
            (claim_block aligned at b bs (ground (arith, found)) (grind (tests, found)))
      | inl skipped ↦ elim (Option-cases later) [
        | inl e ↦
            rw (skipped, e, find_fit)
              (
                λ free. grind (tests, skipped, free),
                subst (FitsOrNone aligned (at + header_size + b.size) bs) e ih,
              )
        | inr (out, e) ↦
            rw (skipped, e, find_fit)
              (keep_block aligned at b bs out.0 out.1
                (subst (FitsOrNone aligned (at + header_size + b.size) bs) e ih))
      ]
    ]

-- What malloc promises of a pointer it returns.
pub record Allocated (heap : Heap) (size : ℕ) (after : Heap) (p : ℕ) : Type 0 where
  pub payload : ℕ
  pub large : size + libc_heap_align ≤ word_mod → size ≤ payload
  pub was_free : used_at 0 heap.blocks p ≡ none
  pub used :
      (q : ℕ)
      → used_at 0 after.blocks q ≡ (if q == p then some payload else used_at 0 heap.blocks q)
  pub same_bytes : after.bytes ≡ heap.bytes

abbrev pub Mallocs : Heap → ℕ → Heap → Option ℕ → Type 0
Mallocs heap size after none =
    ((size ≡ 0) ⊎ NoFit (align_up_size size) (heap_init heap.blocks))
    × ((q : ℕ) → used_at 0 after.blocks q ≡ used_at 0 heap.blocks q)
    × (after.bytes ≡ heap.bytes)
Mallocs heap size after (some p) = Allocated heap size after p

pub heap_init-used_at : (bs : List Block) (q : ℕ) → used_at 0 (heap_init bs) q ≡ used_at 0 bs q
unfolding heap_init
heap_init-used_at [] q = ground arith
heap_init-used_at (b ∷ bs) q = refl

pub align_up_size-large : (size : ℕ) → size + libc_heap_align ≤ word_mod → size ≤ align_up_size size
unfolding align_up_size
align_up_size-large size low = omega (arith, low)

-- malloc returns the address of a payload that was not in use, and has at least `size` bytes if
-- `size` is at most 2^64 - 16; the payloads in use stay as they are. It fails only for size 0 or
-- where no free block has the aligned size, and then no payload changes.
pub malloc_lem :
    (heap : Heap) (size : ℕ)
    → let (after, result) = malloc heap size in Mallocs heap size after result
unfolding malloc
malloc_lem heap size = elim (Bool-cases (size == 0)) [
  | inl empty ↦ rw (empty, malloc) (inl (ground (arith, empty)), λ q. refl, refl)
  | inr some_bytes ↦
      let ready = heap_init heap.blocks in
      let found = find_fit_lem (align_up_size size) 0 ready in
      elim (Option-cases (find_fit (align_up_size size) 0 ready)) [
        | inl e ↦
            rw (some_bytes, e, malloc)
              (
                inr (subst (FitsOrNone (align_up_size size) 0 ready) e found),
                heap_init-used_at heap.blocks,
                refl,
              )
        | inr (out, e) ↦
            let f = subst (FitsOrNone (align_up_size size) 0 ready) e found in
            rw (some_bytes, e, malloc)
              (record {
                payload = f.size;
                large = λ low. omega (arith, f.large, align_up_size-large size low);
                was_free = sym (heap_init-used_at heap.blocks out.1) ∙ f.was_free;
                used = λ q. f.used q ∙ rw (heap_init-used_at heap.blocks q) refl;
                same_bytes = refl;
              })
      ]
]
