-- ===== src/Ramfs/Contents.antt =====
-- The bytes of a file: what a write stores, and where it writes past the inode.
use ocean_linux.Protocol.{value, Reply}
use ocean_linux.Ramfs.{
  handle_read, Ramfs, write_count, handle_write, max_data_size, word_mod, write_bytes, inode_at,
  inode_file, set_inode, written, zero_inode, Inode,
}
use ocean_linux.Base.{
  ℕ, List, drop, take, ◌≤◌, length, ◌<◌, ◌+◌, ◌≡◌, ◌++◌, none, ◌∷◌, arith, ◌↔◌, length-take, some,
  [], ap, sym, refl, ◌∙◌, get_or, set, Bool-cases, ◌==◌, get_or-set, inr, inl, ltb, leb,
  if◌then◌else◌, ◌-◌, take-length, ◌⊎◌, dec_lt,
}

-- Where the clamped write ends behind the data of an inode.
write_count-outside_iff :
    (offset n : ℕ)
    → offset < word_mod
    → n < word_mod
    → (max_data_size < offset + write_count offset n)
      ↔ ((max_data_size < offset) ⊎ (word_mod ≤ offset + n))
unfolding write_count
write_count-outside_iff offset n h k = (
  λ past. elim (dec_lt max_data_size offset) [
    | yes behind ↦ inl behind
    | no before ↦ elim (dec_lt (offset + n) word_mod) [
      | yes fits ↦ absurd (ground (arith, past, before, fits))
      | no wraps ↦ inr (omega (arith, wraps))
    ]
  ],
  λ reason. elim reason [
    | inl behind ↦ ground (arith, behind, h, k)
    | inr wraps ↦ ground (arith, wraps, h, k)
  ],
)

write_count-fits : (offset n : ℕ) → offset + n ≤ max_data_size → write_count offset n ≡ n
unfolding write_count
write_count-fits offset n h = ground arith

-- handle_write, with an offset and a length of 64 bits, writes past the data of the inode exactly
-- on a file where the offset is above MAX_DATA_SIZE, or where offset + length is 2 ^ 64 or more, so
-- that the sum wraps around in the test of the length.
pub handle_write-none_iff :
    (fs : Ramfs) (ino offset : ℕ) (buf : List ℕ)
    → offset < word_mod
    → length buf < word_mod
    → (handle_write fs ino offset buf ≡ none) ↔ (
        ((inode_at fs ino).type ≡ inode_file)
        × ((max_data_size < offset) ⊎ (word_mod ≤ offset + length buf)))
unfolding handle_write
handle_write-none_iff fs ino offset buf h k =
    let outside = write_count-outside_iff offset (length buf) h k in
    elim (Bool-cases ((inode_at fs ino).type == inode_file)) [
      | inr other ↦
          rw (other, handle_write)
            (λ e. absurd (some_differs e), λ p. absurd (ground (arith, other, p.0)))
      | inl file ↦
          elim (Bool-cases (ltb max_data_size (offset + write_count offset (length buf)))) [
            | inr fits ↦
                rw (file, fits, handle_write)
                  (λ e. absurd (some_differs e), λ p. absurd (ground (arith, fits, outside.1 p.1)))
            | inl past ↦
                rw (file, past, handle_write)
                  (λ e. (ground (arith, file), outside.0 (ground (arith, past))), λ p. refl)
          ]
    ]
  where
    some_differs : {a : Ramfs × Reply} → some a ≡ none → ⊥
    some_differs e = cc

drop-append : {A : Type 0} (xs ys : List A) → drop (length xs) (xs ++ ys) ≡ ys
drop-append [] ys = refl
drop-append (x ∷ xs) ys = drop-append xs ys

take-append : {A : Type 0} (xs ys : List A) → take (length xs) (xs ++ ys) ≡ xs
take-append [] ys = refl
take-append (x ∷ xs) ys = ap (λ zs. x ∷ zs) (take-append xs ys)

-- The bytes that were written are the ones at their offset.
read_write_bytes :
    (old new : List ℕ) (offset : ℕ)
    → offset ≤ length old
    → take (length new) (drop offset (write_bytes old offset new)) ≡ new
read_write_bytes old new offset h =
    let front : length (take offset old) ≡ offset = omega (arith, length-take offset old) in
    ap (λ n. take (length new) (drop n (write_bytes old offset new))) (sym front)
    ∙ ap (take (length new)) (drop-append (take offset old) (new ++ drop (offset + length new) old))
    ∙ take-append new (drop (offset + length new) old)

-- A read that ends within the size of a file.
handle_read-inside :
    (fs : Ramfs) (ino offset n : ℕ)
    → (inode_at fs ino).type ≡ inode_file
    → offset + n ≤ (inode_at fs ino).size
    → handle_read fs ino offset n ≡ some (take n (drop offset (inode_at fs ino).bytes))
unfolding handle_read
handle_read-inside fs ino offset n file fits =
    elim (Bool-cases (leb (inode_at fs ino).size offset)) [
      | inl past ↦ let nothing : n ≡ 0 = ground arith in rw (file, past, nothing) refl
      | inr before ↦
          let whole : (if ltb n ((inode_at fs ino).size - offset)
                then n
                else (inode_at fs ino).size - offset)
              ≡ n =
            ground arith in
          rw (file, before, whole) refl
    ]

read_written :
    (fs : Ramfs) (ino offset : ℕ) (buf : List ℕ)
    → ino < length fs.inodes
    → (inode_at fs ino).type ≡ inode_file
    → offset ≤ length (inode_at fs ino).bytes
    → handle_read (set_inode fs ino (written (inode_at fs ino) offset buf)) ino offset (length buf)
      ≡ some buf
read_written fs ino offset buf inside file room =
    let new : Inode = written (inode_at fs ino) offset buf in
    let stored : get_or (set fs.inodes ino new) ino zero_inode ≡ new =
      get_or-set fs.inodes ino ino new zero_inode inside ∙ ground arith in
    let size : (get_or (set fs.inodes ino new) ino zero_inode).size ≡ new.size =
      ap (λ (x : Inode). x.size) stored in
    handle_read-inside (set_inode fs ino new) ino offset (length buf)
      (ap (λ (x : Inode). x.type) stored ∙ file) (ground (arith, size))
    ∙ ap (λ (x : Inode). some (take (length buf) (drop offset x.bytes))) stored
    ∙ ap (λ (x : List ℕ). some x) (read_write_bytes (inode_at fs ino).bytes buf offset room)

-- A write to a file that ends within MAX_DATA_SIZE succeeds whole, and a read of as many bytes at
-- the same offset returns them.
pub handle_read-handle_write :
    (fs : Ramfs) (ino offset : ℕ) (buf : List ℕ)
    → ino < length fs.inodes
    → (inode_at fs ino).type ≡ inode_file
    → length (inode_at fs ino).bytes ≡ max_data_size
    → offset + length buf ≤ max_data_size
    → (after : Ramfs) × (handle_write fs ino offset buf ≡ some (after, value (length buf)))
      × (handle_read after ino offset (length buf) ≡ some buf)
unfolding handle_write
handle_read-handle_write fs ino offset buf inside file sized fits =
    let done : handle_write fs ino offset buf
        ≡ some (set_inode fs ino (written (inode_at fs ino) offset buf), value (length buf)) =
      rw (file, write_count-fits offset (length buf) fits, take-length buf) (ground arith) in
    (_, done, read_written fs ino offset buf inside file (omega (arith, sized)))
