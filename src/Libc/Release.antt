-- ===== src/Libc/Release.antt =====
-- What free does.
use ocean_linux.Libc.Blocks.{used_at, total_size, skip_free, used_at-behind}
use ocean_linux.Libc.Heap.{
  coalesce_blocks, free_ptr, Block, coalesce_from, release_at, Heap, header_size,
}
use ocean_linux.Base.{
  ℕ, List, ◌∷◌, ◌≡◌, some, if◌then◌else◌, Bool-cases, true, ◌+◌, ◌==◌, ◌∙◌, ◌&&◌, [], ℕ_discrete,
  none, inl, refl, ap, arith, inr,
}

-- Two lists of blocks from `at` on that have the same payloads in use and the same size.
pub record SameUse (at : ℕ) (bs after : List Block) : Type 0 where
  pub used : (q : ℕ) → used_at at after q ≡ used_at at bs q
  pub same_total : total_size after ≡ total_size bs

-- The block behind a free block has no payload in use.
joined-SameUse :
    (at : ℕ) (b next : Block) (rest : List Block)
    → b.free ≡ true
    → next.free ≡ true
    → SameUse at (b ∷ next ∷ rest) (record b { size = b.size + (header_size + next.size) } ∷ rest)
joined-SameUse at b next rest free next_free = record {
  used = λ q. rw (free, skip_free at b.size next rest q next_free) refl;
  same_total = omega arith;
}

coalesce_from-SameUse :
    (at : ℕ) (b : Block) (bs : List Block) → SameUse at (b ∷ bs) (coalesce_from b bs)
unfolding coalesce_from
coalesce_from-SameUse at b [] = record { used = λ q. refl; same_total = refl }
coalesce_from-SameUse at b (next ∷ rest) = elim (Bool-cases (b.free && next.free)) [
  | inl both ↦
      let joined = record b { size = b.size + (header_size + next.size) } in
      let ih = coalesce_from-SameUse at joined rest in
      let j = joined-SameUse at b next rest (ground (arith, both)) (ground (arith, both)) in
      rw (both, coalesce_from)
        (record { used = λ q. ih.used q ∙ j.used q; same_total = ih.same_total ∙ j.same_total })
  | inr apart ↦
      let ih = coalesce_from-SameUse (at + header_size + b.size) next rest in
      rw (apart, coalesce_from)
        (record {
          used = λ q. rw (ih.used q) refl;
          same_total = ap (λ n. header_size + b.size + n) ih.same_total;
        })
]

coalesce_blocks-SameUse : (bs : List Block) → SameUse 0 bs (coalesce_blocks bs)
unfolding coalesce_blocks
coalesce_blocks-SameUse [] = record { used = λ q. refl; same_total = refl }
coalesce_blocks-SameUse (b ∷ bs) = coalesce_from-SameUse 0 b bs

-- The payload at `p`, which was in use, is not any more.
pub record Released (at p : ℕ) (bs after : List Block) : Type 0 where
  pub used : (q : ℕ) → used_at at after q ≡ (if q == p then none else used_at at bs q)
  pub same_total : total_size after ≡ total_size bs

release_at_lem :
    (p at : ℕ) (bs : List Block) {n : ℕ}
    → used_at at bs p ≡ some n
    → (after : List Block) × (release_at p at bs ≡ some after) × Released at p bs after
unfolding release_at
release_at_lem p at [] h = cc
release_at_lem p at (b ∷ bs) {n} h = elim (ℕ_discrete p (at + header_size)) [
  | yes here ↦ (
    record b { free = true } ∷ bs,
    ground (arith, here),
    record { used = λ q. ground (arith, here); same_total = refl },
  )
  | no elsewhere ↦
      let later : used_at (at + header_size + b.size) bs p ≡ some n =
        ground (arith, elsewhere, h) in
      let (after, e, r) = release_at_lem p (at + header_size + b.size) bs later in
      let behind = used_at-behind (at + header_size + b.size) bs p later in
      (
        b ∷ after,
        rw e (ground (arith, elsewhere)),
        record {
          used = λ q. rw (r.used q) (ground (arith, behind));
          same_total = ap (λ n. header_size + b.size + n) r.same_total;
        },
      )
]

-- free of a payload that is in use takes exactly that payload out of use; the memory stays, and the
-- blocks still fill the heap.
pub free_ptr_lem :
    (heap : Heap) (p : ℕ) {n : ℕ}
    → used_at 0 heap.blocks p ≡ some n
    → (after : Heap) × (free_ptr heap (some p) ≡ some after)
      × Released 0 p heap.blocks after.blocks
      × (after.bytes ≡ heap.bytes)
unfolding free_ptr
free_ptr_lem heap p h =
    let (released, e, r) = release_at_lem p 0 heap.blocks h in
    let c = coalesce_blocks-SameUse released in
    (
      record heap { blocks = coalesce_blocks released },
      rw (e, free_ptr) refl,
      record { used = λ q. c.used q ∙ r.used q; same_total = c.same_total ∙ r.same_total },
      refl,
    )
