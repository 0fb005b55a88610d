-- ===== src/Libc/Resize.antt =====
-- What realloc does.

use ocean_linux.Libc.Blocks.{
  used_at, total_size, trimmed, trim-used_at, trim-total_size, trimmed-large, skip_free, first_used,
  used_at-behind,
}
use ocean_linux.Libc.Heap.{grow, Block, header_size, resize_at}
use ocean_linux.Base.{
  ℕ, List, ◌≤◌, Option, ◌≡◌, false, some, ◌+◌, if◌then◌else◌, none, ◌==◌, ◌∷◌, leb, Bool-cases,
  ◌&&◌, inr, inl, ◌∙◌, arith, [], leb→le, ◌≢◌, ap, ℕ_discrete, sym, subst,
}

-- The payload at `p` has at least `wanted` bytes now, the others are as they were.
pub record Resized (at wanted p : ℕ) (bs after : List Block) : Type 0 where
  pub size : ℕ
  pub large : wanted ≤ size
  pub used : (q : ℕ) → used_at at after q ≡ (if q == p then some size else used_at at bs q)
  pub same_total : total_size after ≡ total_size bs

abbrev pub ResizedOrNone : ℕ → ℕ → ℕ → List Block → Option (List Block) → Type 0
ResizedOrNone at wanted p bs none = Unit
ResizedOrNone at wanted p bs (some after) = Resized at wanted p bs after

grow_lem :
    (aligned at : ℕ) (b : Block) (bs : List Block)
    → b.free ≡ false
    → ResizedOrNone at aligned (at + header_size) (b ∷ bs) (grow aligned b bs)
unfolding grow
grow_lem aligned at b bs in_use = elim (Bool-cases (leb aligned b.size)) [
  | inl fits ↦
      rw (fits, grow)
        (record {
          size = trimmed b aligned;
          large = trimmed-large b aligned (leb→le aligned b.size fits);
          used = λ q. trim-used_at b aligned at bs q ∙ ground arith;
          same_total = trim-total_size b aligned bs;
        })
  | inr small ↦ grow_next small bs
]
  where
    grow_next :
        leb aligned b.size ≡ false
        → (bs : List Block)
        → ResizedOrNone at aligned (at + header_size) (b ∷ bs) (grow aligned b bs)
    grow_next small [] = rw (small, grow) tt
    grow_next small (next ∷ rest) =
        let joined_size = b.size + (header_size + next.size) in
        let joined = record b { size = joined_size } in
        elim (Bool-cases (next.free && leb aligned joined_size)) [
          | inr no_room ↦ rw (small, no_room, grow) tt
          | inl room ↦
              rw (small, room, grow)
                (record {
                  size = trimmed joined aligned;
                  large =
                      trimmed-large joined aligned
                        (leb→le aligned joined_size (ground (arith, room)));
                  used = λ q.
                      trim-used_at joined aligned at rest q
                      ∙ rw (skip_free at b.size next rest q (ground (arith, room))) (ground arith);
                  same_total = trim-total_size joined aligned rest ∙ omega arith;
                })
        ]

pub resize_at_lem :
    (aligned p at : ℕ) (bs : List Block) {n : ℕ}
    → used_at at bs p ≡ some n
    → (r : Option (List Block)) × (resize_at aligned p at bs ≡ some (n, r))
      × ResizedOrNone at aligned p bs r
unfolding resize_at
resize_at_lem aligned p at [] h = cc
resize_at_lem aligned p at (b ∷ bs) {n} h = elim (ℕ_discrete p (at + header_size)) [
  | yes here ↦
      let (in_use, size) = first_used at b bs p here h in
      (
        grow aligned b bs,
        rw (sym size) (ground (arith, here)),
        subst (λ p. ResizedOrNone at aligned p (b ∷ bs) (grow aligned b bs)) (sym here)
            (grow_lem aligned at b bs in_use),
      )
  | no elsewhere ↦
      let later : used_at (at + header_size + b.size) bs p ≡ some n =
        ground (arith, elsewhere, h) in
      let behind = used_at-behind (at + header_size + b.size) bs p later in
      keep_front elsewhere behind (resize_at_lem aligned p (at + header_size + b.size) bs later)
]
  where
    keep_front :
        p ≢ at + header_size
        → at + header_size + b.size + header_size ≤ p
        → ((r : Option (List Block)) × (resize_at aligned p (at + header_size + b.size) bs
              ≡ some (n, r))
            × ResizedOrNone (at + header_size + b.size) aligned p bs r)
        → (r : Option (List Block)) × (resize_at aligned p at (b ∷ bs) ≡ some (n, r))
          × ResizedOrNone at aligned p (b ∷ bs) r
    keep_front elsewhere behind (none, e, _) = (none, rw e (ground (arith, elsewhere)), tt)
    keep_front elsewhere behind (some after, e, r) = (
      some (b ∷ after),
      rw e (ground (arith, elsewhere)),
      record {
        size = r.size;
        large = r.large;
        used = λ q. rw (r.used q) (ground (arith, behind));
        same_total = ap (λ n. header_size + b.size + n) r.same_total;
      },
    )
