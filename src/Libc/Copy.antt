-- ===== src/Libc/Copy.antt =====
-- What the copies of memory do.
use ocean_linux.Libc.Strings.{zero_fill, strncpy, copy_chars}
use ocean_linux.Libc.{Mem, store}
use ocean_linux.Libc.Memory.{copy_down, copy_up, memset, memmove, memcpy}
use ocean_linux.Base.{
  ℕ, if◌then◌else◌, ◌≤◌, ◌⊎◌, leb, ◌≡◌, suc, ◌+◌, ◌&&◌, dec_lt, ◌∙◌, ltb, zero, ◌-◌, arith, inl,
  inr, ◌<◌, ◌≢◌, ◌%◌, ◌==◌, false, true, ℕ_discrete, ap, sym, refl,
}

-- Memory with the `n` bytes from `d` on replaced by those of `old` from `s` on.
abbrev pub copied : Mem → ℕ → ℕ → ℕ → Mem
copied m d s n a = if leb d a && ltb a (d + n) then m (s + (a - d)) else m a

-- The first byte is copied before the others.
copied-first :
    (m : Mem) (d s n a : ℕ)
    → (d ≤ s) ⊎ (s + suc n ≤ d)
    → copied (store m d (m s)) (d + 1) (s + 1) n a ≡ copied m d s (suc n) a
copied-first m d s n a apart = elim (dec_lt a (d + 1)) [
  | yes low ↦ elim (dec_lt a d) [
    | yes below ↦ ground arith
    | no eq ↦ let e : a ≡ d = omega (arith, low, eq) in rw e (ground arith)
  ]
  | no high ↦
      let e : s + 1 + (a - (d + 1)) ≡ s + (a - d) = omega (arith, high) in rw e (grind arith)
]

-- A copy from the front, where no byte is read after it was overwritten.
copy_up_lem : (m : Mem) (d s n a : ℕ) → (d ≤ s) ⊎ (s + n ≤ d) → copy_up m d s n a ≡ copied m d s n a
unfolding copy_up
copy_up_lem m d s zero a apart = ground arith
copy_up_lem m d s (suc n) a apart =
    copy_up_lem (store m d (m s)) (d + 1) (s + 1) n a
      (elim apart [ inl e ↦ inl (omega (arith, e)) | inr e ↦ inr (omega (arith, e)) ])
    ∙ copied-first m d s n a apart

copied-last :
    (m : Mem) (d s n a : ℕ)
    → s ≤ d
    → copied (store m (d + n) (m (s + n))) d s n a ≡ copied m d s (suc n) a
copied-last m d s n a below = elim (dec_lt a (d + n)) [
  | yes low ↦ ground arith
  | no high ↦ elim (dec_lt (d + n) a) [
    | yes above ↦ ground arith
    | no eq ↦
        let e : a ≡ d + n = omega (arith, high, eq) in
        let k : s + (d + n - d) ≡ s + n = omega arith in rw (e, k) (ground arith)
  ]
]

copy_down_lem : (m : Mem) (d s n a : ℕ) → s ≤ d → copy_down m d s n a ≡ copied m d s n a
unfolding copy_down
copy_down_lem m d s zero a below = ground arith
copy_down_lem m d s (suc n) a below =
    copy_down_lem (store m (d + n) (m (s + n))) d s n a below ∙ copied-last m d s n a below

-- memmove gives the target the bytes that the source had before, also where the two overlap, and
-- changes no other byte.
pub memmove_lem : (m : Mem) (dest src n a : ℕ) → memmove m dest src n a ≡ copied m dest src n a
unfolding memmove
memmove_lem m dest src n a = elim (dec_lt dest src) [
  | yes up ↦
      let e : ltb dest src ≡ true = ground (arith, up) in
      rw (e, memmove) (copy_up_lem m dest src n a (inl (omega (arith, up))))
  | no down ↦
      let e : ltb dest src ≡ false = ground (arith, down) in
      rw (e, memmove) (copy_down_lem m dest src n a (omega (arith, down)))
]

-- memcpy does so where the two do not overlap.
pub memcpy_lem :
    (m : Mem) (dest src n a : ℕ)
    → (dest + n ≤ src) ⊎ (src + n ≤ dest)
    → memcpy m dest src n a ≡ copied m dest src n a
unfolding memcpy
memcpy_lem m dest src n a apart =
    copy_up_lem m dest src n a (elim apart [ inl e ↦ inl (omega (arith, e)) | inr e ↦ inr e ])

-- Memory with `n` bytes from `d` on set to `c`.
abbrev pub filled : Mem → ℕ → ℕ → ℕ → Mem
filled m d c n a = if leb d a && ltb a (d + n) then c else m a

pub memset_lem : (m : Mem) (p c n a : ℕ) → memset m p c n a ≡ filled m p (c % 256) n a
unfolding memset
memset_lem m p c zero a = ground arith
memset_lem m p c (suc n) a = memset_lem (store m p (c % 256)) (p + 1) c n a ∙ ground arith

zero_fill_lem : (m : Mem) (d n a : ℕ) → zero_fill m d n a ≡ filled m d 0 n a
unfolding zero_fill
zero_fill_lem m d zero a = ground arith
zero_fill_lem m d (suc n) a = zero_fill_lem (store m d 0) (d + 1) n a ∙ ground arith

-- A string of length `k` at `src`.
pub record StringAt (m : Mem) (src k : ℕ) : Type 0 where
  pub chars : (i : ℕ) → i < k → m (src + i) ≢ 0
  pub nul : m (src + k) ≡ 0

-- What the first loop of strncpy leaves for the second.
record Copies (m : Mem) (d src n k : ℕ) (out : Mem × ℕ × ℕ) : Type 0 where
  bytes : (a : ℕ) → out.0 a ≡ copied m d src (suc k) a
  reached : out.1 ≡ d + k + 1
  left : out.2 ≡ n - k

-- The byte behind the first one is not in front of the source's rest.
store-away :
    (m : Mem) (d src c j k : ℕ)
    → (d ≤ src) ⊎ (src + suc (suc k) ≤ d)
    → j ≤ k
    → store m d c (src + 1 + j) ≡ m (src + suc j)
store-away m d src c j k apart low =
    let e : src + 1 + j ≡ src + suc j = omega arith in
    let n : (d == src + suc j) ≡ false = elim apart [
      | inl u ↦ ground (arith, u)
      | inr v ↦ ground (arith, v, low)
    ] in
    rw (e, n) refl

string_tail :
    (m : Mem) (d src k : ℕ)
    → (d ≤ src) ⊎ (src + suc (suc k) ≤ d)
    → StringAt m src (suc k)
    → StringAt (store m d (m src)) (src + 1) k
string_tail m d src k apart s = record {
  chars = λ i low. λ q.
      s.chars (suc i) (omega (arith, low))
        (sym (store-away m d src (m src) i k apart (omega (arith, low))) ∙ q);
  nul = store-away m d src (m src) k k apart (omega arith) ∙ s.nul;
}

first_copied : (m : Mem) (d src a : ℕ) → m src ≡ 0 → store m d 0 a ≡ copied m d src 1 a
first_copied m d src a e = elim (ℕ_discrete d a) [
  | yes same ↦ let k : src + (a - d) ≡ src = omega (arith, same) in rw k (ground arith)
  | no other ↦ ground arith
]

not_nul : {c : ℕ} → c ≢ 0 → (c == 0) ≡ false
not_nul {c} h = ground arith

copy_chars_lem :
    (m : Mem) (d src n k : ℕ)
    → StringAt m src k
    → k < n
    → (d ≤ src) ⊎ (src + suc k ≤ d)
    → Copies m d src n k (copy_chars m d src n)
unfolding copy_chars
copy_chars_lem m d src zero k s low apart = absurd (omega (arith, low))
copy_chars_lem m d src (suc n) zero s low apart =
    let e : m src ≡ 0 = ap m (omega arith) ∙ s.nul in
    rw (e, copy_chars)
      (record { bytes = λ a. first_copied m d src a e; reached = omega arith; left = omega arith })
copy_chars_lem m d src (suc n) (suc k) s low apart =
    let ih =
      copy_chars_lem (store m d (m src)) (d + 1) (src + 1) n k (string_tail m d src k apart s)
        (omega (arith, low))
        (elim apart [ inl u ↦ inl (omega (arith, u)) | inr v ↦ inr (omega (arith, v)) ]) in
    let e : (m src == 0) ≡ false =
      not_nul (λ q. s.chars 0 (omega arith) (ap m (omega arith) ∙ q)) in
    rw (e, copy_chars)
      (record {
        bytes = λ a. ih.bytes a ∙ copied-first m d src (suc k) a apart;
        reached = ih.reached ∙ omega arith;
        left = ih.left ∙ omega arith;
      })

-- The copy, and the NULs behind it.
then_nuls :
    (m : Mem) (dest src n k a : ℕ)
    → m (src + k) ≡ 0
    → k < n
    → (if leb (dest + k + 1) a && ltb a (dest + k + 1 + (n - k))
        then 0
        else copied m dest src (suc k) a)
      ≡ (if leb dest a && ltb a (dest + k)
          then m (src + (a - dest))
          else if leb dest a && leb a (dest + n)
          then 0
          else m a)
then_nuls m dest src n k a nul low = elim (ℕ_discrete a (dest + k)) [
  | yes at_nul ↦
      let e : src + (dest + k - dest) ≡ src + k = omega arith in
      rw (at_nul, e, nul) (ground (arith, low))
  | no other ↦ elim (dec_lt a (dest + k)) [
    | yes before ↦ ground (arith, before)
    | no behind ↦ elim (dec_lt (dest + n) a) [
      | yes outside ↦ ground (arith, outside, low)
      | no inside ↦ ground (arith, inside, behind, other, low)
    ]
  ]
]

-- Where the string at `src` is shorter than n, strncpy copies it and then writes NULs up to and
-- including dest[n], one byte behind the buffer; all other memory stays.
pub strncpy_lem :
    (m : Mem) (dest src n k : ℕ)
    → StringAt m src k
    → k < n
    → (dest ≤ src) ⊎ (src + suc k ≤ dest)
    → (a : ℕ)
    → strncpy m dest src n a ≡ (
        if leb dest a && ltb a (dest + k)
        then m (src + (a - dest))
        else if leb dest a && leb a (dest + n)
        then 0
        else m a)
unfolding strncpy
strncpy_lem m dest src n k s low apart a =
    let out = copy_chars m dest src n in
    let c = copy_chars_lem m dest src n k s low apart in
    zero_fill_lem out.0 out.1 out.2 a
    ∙ rw (c.reached, c.left, c.bytes a) (then_nuls m dest src n k a s.nul low)
