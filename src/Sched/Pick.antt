-- ===== src/Sched/Pick.antt =====
-- Picking the next thread: the first one of the first queue that holds any.
use ocean_linux.Sched.Queues.{holds_some, IsValid}
use ocean_linux.Base.Bits.{bit, bit-zero, bit_above, bits_ext}
use ocean_linux.Base.BitArray.{test_bit, test_bit-bit, AreWords, test_bit-zeros}
use ocean_linux.Sched.{ctz_from, ffs_from, RunQueue, bitmap_ffs, pick_next_thread, max_prio}
use ocean_linux.Base.{
  ℕ, List, ◌<◌, ◌^◌, Option, ◌≤◌, ◌≢◌, ◌≡◌, ◌+◌, ◌∷◌, false, ◌-◌, some, ◌⊎◌, dec_lt, true, ◌∙◌, ◌*◌,
  none, sym, inl, arith, suc, Bool-cases, inr, ℕ_discrete, zero, ◌/◌, ◌%◌, ◌==◌, refl, [], ap,
  Option-cases, take, subst, take-length,
}

-- The lowest set bit from `j` on, or none in the `n` bits.
ctz_from_lem :
    (n j word : ℕ)
    → ((m : ℕ) → j ≤ m → m < j + n → bit word m ≡ false)
      ⊎ ((bit word (ctz_from n j word) ≡ true)
          × (ctz_from n j word < j + n)
          × ((m : ℕ) → j ≤ m → m < ctz_from n j word → bit word m ≡ false))
unfolding ctz_from
ctz_from_lem zero j word = inl (λ m h k. absurd (omega arith))
ctz_from_lem (suc n) j word = elim (Bool-cases (bit word j)) [
  | inl found ↦ inr (rw found (found, omega arith, λ m h k. absurd (omega arith)))
  | inr clear ↦
      let here : (m : ℕ) → (suc j ≤ m → bit word m ≡ false) → j ≤ m → bit word m ≡ false =
        λ m later h. elim (ℕ_discrete j m) [
          | yes same ↦ rw (← same) clear
          | no other ↦ later (omega arith)
        ] in
      elim (ctz_from_lem n (suc j) word) [
        | inl none_set ↦ inl (λ m h k. here m (λ l. none_set m l (omega arith)) h)
        | inr (set_one, small, below) ↦
            inr (rw clear (set_one, omega arith, λ m h k. here m (λ l. below m l k) h))
      ]
]

-- A word that is not zero has a set bit.
nonzero_bit : (word : ℕ) → word < 2 ^ 64 → word ≢ 0 → ((m : ℕ) → m < 64 → bit word m ≡ false) → ⊥
nonzero_bit word small nz clear = nz (bits_ext 64 word 0 small (omega arith) all_clear)
  where
    all_clear : (i : ℕ) → bit word i ≡ bit 0 i
    all_clear i = elim (dec_lt i 64) [
      | yes low ↦ clear i low ∙ sym (bit-zero i)
      | no high ↦ bit_above 64 word i small (omega arith) ∙ sym (bit-zero i)
    ]

-- The first set bit of the words, whose first has index `i`.
abbrev pub FirstSet : List ℕ → ℕ → Option ℕ → Type 0
FirstSet words i none = (m : ℕ) → test_bit words m ≡ false
FirstSet words i (some r) =
    (m : ℕ) × (r ≡ i * 64 + m)
    × (test_bit words m ≡ true)
    × ((l : ℕ) → l < m → test_bit words l ≡ false)

test_bit-low : (word : ℕ) (words : List ℕ) (m : ℕ) → m < 64 → test_bit (word ∷ words) m ≡ bit word m
test_bit-low word words m h =
    let q : m / 64 ≡ 0 = omega arith in
    let r : m % 64 ≡ m = omega arith in test_bit-bit (word ∷ words) m ∙ rw (q, r) refl

test_bit-high :
    (word : ℕ) (words : List ℕ) (m : ℕ) → test_bit (word ∷ words) (64 + m) ≡ test_bit words m
test_bit-high word words m =
    let q : (64 + m) / 64 ≡ suc (m / 64) = omega arith in
    let r : (64 + m) % 64 ≡ m % 64 = omega arith in
    test_bit-bit (word ∷ words) (64 + m) ∙ rw (q, r) refl ∙ sym (test_bit-bit words m)

-- Behind a word of zero, a bit is set only if it is set in the words after it.
behind_zero :
    (word : ℕ) (words : List ℕ) (m : ℕ)
    → word ≡ 0
    → ((k : ℕ) → m ≡ 64 + k → test_bit words k ≡ false)
    → test_bit (word ∷ words) m ≡ false
behind_zero word words m zero_word later = elim (dec_lt m 64) [
  | yes low ↦ test_bit-low word words m low ∙ rw zero_word (bit-zero m)
  | no high ↦
      let place : m ≡ 64 + (m - 64) = omega arith in
      ap (test_bit (word ∷ words)) place ∙ test_bit-high word words (m - 64) ∙ later (m - 64) place
]

-- A word of zero is passed over.
pass_word :
    (word : ℕ) (words : List ℕ) (i : ℕ) (r : Option ℕ)
    → word ≡ 0
    → FirstSet words (suc i) r
    → FirstSet (word ∷ words) i r
pass_word word words i none zero_word rest = λ m. behind_zero word words m zero_word (λ k e. rest k)
pass_word word words i (some r) zero_word (m, e, set_one, before) = (
  64 + m,
  omega arith,
  test_bit-high word words m ∙ set_one,
  λ l h. behind_zero word words l zero_word (λ k p. before k (omega arith)),
)

-- bitmap_ffs of words of 64 bits finds the first set bit.
ffs_from-FirstSet : (words : List ℕ) (i : ℕ) → AreWords words → FirstSet words i (ffs_from words i)
unfolding ffs_from
ffs_from-FirstSet [] i w = λ m. test_bit-zeros 0 m
ffs_from-FirstSet (word ∷ words) i w = elim (Bool-cases (word == 0)) [
  | inl none_set ↦
      rw (none_set, ffs_from)
        (pass_word word words i _ (ground arith) (ffs_from-FirstSet words (suc i) (λ k. w (suc k))))
  | inr some_set ↦
      rw (some_set, ffs_from)
        (elim (ctz_from_lem 64 0 word) [
          | inl clear ↦ absurd (
              nonzero_bit word (w 0) (λ e. absurd (ground arith))
                (λ m h. clear m (omega arith) (omega arith)))
          | inr (set_one, small, below) ↦ (
            ctz_from 64 0 word,
            refl,
            test_bit-low word words (ctz_from 64 0 word) (omega arith) ∙ set_one,
            λ l h. test_bit-low word words l (omega arith) ∙ below l (omega arith) h,
          )
        ])
]

-- What pick_next_thread picks: the first thread of the first queue that holds one, or the idle
-- thread where no queue does.
abbrev pub Picks : RunQueue → Option ℕ → Type 0
Picks rq picked =
    ((picked ≡ rq.idle) × ((i : ℕ) → i < max_prio → rq.queue i ≡ []))
    ⊎ ((prio : ℕ) × (next : ℕ) × (rest : List ℕ) × (picked ≡ some next)
        × (prio < max_prio)
        × (rq.queue prio ≡ next ∷ rest)
        × ((i : ℕ) → i < prio → rq.queue i ≡ []))

empty_queue : (ts : List ℕ) → holds_some ts ≡ false → ts ≡ []
empty_queue [] h = refl
empty_queue (t ∷ ts) h = cc

full_queue :
    (ts : List ℕ) → holds_some ts ≡ true → (next : ℕ) × (rest : List ℕ) × (ts ≡ next ∷ rest)
full_queue [] h = cc
full_queue (t ∷ ts) h = (t, ts, refl)

pub bitmap_ffs-FirstSet :
    {rq : RunQueue} → IsValid rq → FirstSet rq.bitmap 0 (bitmap_ffs rq.bitmap max_prio)
unfolding bitmap_ffs
bitmap_ffs-FirstSet {rq} v =
    let whole : take 3 rq.bitmap ≡ rq.bitmap =
      ap (λ n. take n rq.bitmap) (sym v.sized) ∙ take-length rq.bitmap in
    rw whole (ffs_from-FirstSet rq.bitmap 0 v.words)

-- On a run queue whose bitmap is in step with its queues, pick_next_thread picks the first thread
-- of the non-empty queue with the lowest number, and the idle thread where all are empty.
pub pick_next_thread_lem : {rq : RunQueue} → IsValid rq → Picks rq (pick_next_thread rq).1
unfolding pick_next_thread
pick_next_thread_lem {rq} v = elim (Option-cases (bitmap_ffs rq.bitmap max_prio)) [
  | inl e ↦
      let f = subst (FirstSet rq.bitmap 0) e (bitmap_ffs-FirstSet v) in
      rw (e, pick_next_thread)
        (inl (refl, λ i h. empty_queue (rq.queue i) (sym (v.marked i h) ∙ f i)))
  | inr (prio, e) ↦
      let f = subst (FirstSet rq.bitmap 0) e (bitmap_ffs-FirstSet v) in
      let same : f.0 ≡ prio = omega (arith, f.1) in
      let set_one : test_bit rq.bitmap prio ≡ true =
        subst (λ n. test_bit rq.bitmap n ≡ true) same f.2 in
      let small : prio < max_prio = elim (dec_lt prio max_prio) [
        | yes low ↦ low
        | no high ↦ absurd (both (sym set_one ∙ v.no_more prio (omega arith)))
      ] in
      let (next, rest, found) = full_queue (rq.queue prio) (sym (v.marked prio small) ∙ set_one) in
      rw (e, found, pick_next_thread)
        (inr (
          prio,
          next,
          rest,
          refl,
          small,
          found,
          λ i h. empty_queue (rq.queue i) (sym (v.marked i (omega arith)) ∙ f.3 i (omega arith)),
        ))
]
  where
    both : true ≡ false → ⊥
    both h = cc
