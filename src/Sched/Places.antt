-- ===== src/Sched/Places.antt =====
-- The place of each thread in the queues.
use ocean_linux.Base.BitArray.{
  clear_bit, length-clear_bit, clear_bit-AreWords, test_bit-clear_bit, AreWords, test_bit,
}
use ocean_linux.Sched.Queues.{IsValid, holds_some, added, added-IsValid}
use ocean_linux.Sched.Switch.{remove_from}
use ocean_linux.Sched.{clamp_prio, RunQueue, max_prio, store, Thread}
use ocean_linux.Base.{
  ℕ, List, ◌<◌, ◌∷◌, ◌++◌, ◌≡◌, [], if◌then◌else◌, arith, refl, ◌&&◌, ◌==◌, ◌-◌, ◌+◌, ℕ_discrete,
  false, ap, true, ◌≢◌, ◌/◌, ◌∙◌, length, sym,
}

-- How often the thread is in the queue.
abbrev pub count_in : ℕ → List ℕ → ℕ
count_in t [] = 0
count_in t (u ∷ us) = if u == t then 1 + count_in t us else count_in t us

-- A thread that is linked is once in the queue of its priority, and no thread is anywhere else;
-- the bitmap is in step with the queues.
pub record IsPlaced (rq : RunQueue) : Type 0 where
  pub valid : IsValid rq
  pub ranged : (t : ℕ) → (rq.threads t).priority < max_prio
  pub placed :
      (t i : ℕ)
      → count_in t (rq.queue i)
        ≡ (if (rq.threads t).linked && ((rq.threads t).priority == i) then 1 else 0)

count_in-append :
    (t u : ℕ) (ts : List ℕ)
    → count_in t (ts ++ (u ∷ [])) ≡ (if u == t then 1 else 0) + count_in t ts
count_in-append t u [] = ground arith
count_in-append t u (x ∷ xs) = rw (count_in-append t u xs) (ground arith)

count_in-remove_from :
    (t u : ℕ) (ts : List ℕ)
    → count_in t (remove_from u ts) ≡ (if u == t then count_in t ts - 1 else count_in t ts)
unfolding remove_from
count_in-remove_from t u [] = ground arith
count_in-remove_from t u (x ∷ xs) = elim (ℕ_discrete x u) [
  | yes same ↦ rw same (ground arith)
  | no other ↦
      let e : (x == u) ≡ false = ground (arith, other) in
      rw e (ground (arith, other, count_in-remove_from t u xs))
]

-- A thread that is not in a queue is not taken off it.
pub remove_from-absent : (t : ℕ) (ts : List ℕ) → count_in t ts ≡ 0 → remove_from t ts ≡ ts
unfolding remove_from
remove_from-absent t [] h = refl
remove_from-absent t (x ∷ xs) h =
    let other : (x == t) ≡ false = ground (arith, h) in
    rw other (ap (λ us. x ∷ us) (remove_from-absent t xs (ground (arith, h, other))))

pub clamp_prio-ranged : (p : ℕ) → p < max_prio → clamp_prio p ≡ p
unfolding clamp_prio
clamp_prio-ranged p h = ground (arith, h)

-- The run queue with the thread `t`, which was not linked, at the end of the queue `prio`.
module _ {rq : RunQueue} (s : IsPlaced rq) (t prio : ℕ) (small : prio < max_prio)
    (apart : (rq.threads t).linked ≡ false) (thread : Thread) (linked : thread.linked ≡ true)
    (there : thread.priority ≡ prio) (running : ℕ) where
  pub added-IsPlaced : IsPlaced (added s.valid t prio small (store rq.threads t thread) running)
  added-IsPlaced = record {
    valid = added-IsValid s.valid t prio small (store rq.threads t thread) running;
    ranged = λ u. ground (arith, s.ranged u, there, small);
    placed = λ u i.
        ground (
          arith,
          apart,
          linked,
          there,
          s.placed u i,
          s.placed t i,
          count_in-append u t (rq.queue i),
        );
  }

holds_some-remove_from :
    (t u : ℕ) (us : List ℕ) (ts : List ℕ) → remove_from t ts ≡ u ∷ us → holds_some ts ≡ true
unfolding remove_from
holds_some-remove_from t u us [] e = cc
holds_some-remove_from t u us (x ∷ xs) e = refl

-- The run queue without the linked thread `t`, which leaves `rest` in the queue of its priority.
module _ {rq : RunQueue} (s : IsPlaced rq) (t : ℕ) (linked : (rq.threads t).linked ≡ true)
    (queue : ℕ → List ℕ) (same : (i : ℕ) → queue i ≡ remove_from t (rq.queue i)) (running : ℕ) where
  abbrev prio : ℕ
  prio = (rq.threads t).priority

  abbrev left_bitmap : List ℕ → List ℕ
  left_bitmap rest = elim rest [ [] ↦ clear_bit rq.bitmap prio | u ∷ us ↦ rq.bitmap ]

  abbrev pub without : RunQueue
  without = record rq {
    queue = queue;
    bitmap = left_bitmap (queue prio);
    threads = store rq.threads t (record (rq.threads t) { linked = false });
    nr_running = running;
  }

  elsewhere : (i : ℕ) → prio ≢ i → queue i ≡ rq.queue i
  elsewhere i other =
      same i ∙ remove_from-absent t (rq.queue i) (s.placed t i ∙ ground (arith, other))

  -- The bit of the queue of `t` says whether that is empty now.
  record Bits (rest bitmap : List ℕ) : Type 0 where
    sized : length bitmap ≡ 3
    words : AreWords bitmap
    bits :
        (i : ℕ) → test_bit bitmap i ≡ (if prio == i then holds_some rest else test_bit rq.bitmap i)

  left_bitmap-Bits : (rest : List ℕ) → queue prio ≡ rest → Bits rest (left_bitmap rest)
  left_bitmap-Bits [] e =
      let fits : prio / 64 < length rq.bitmap = omega (arith, s.ranged t, s.valid.sized) in
      record {
        sized = length-clear_bit rq.bitmap prio ∙ s.valid.sized;
        words = clear_bit-AreWords rq.bitmap prio fits s.valid.words;
        bits = test_bit-clear_bit rq.bitmap prio fits;
      }
  left_bitmap-Bits (u ∷ us) e = record {
    sized = s.valid.sized;
    words = s.valid.words;
    bits = λ i. ground (
      arith,
      s.valid.marked prio (s.ranged t),
      holds_some-remove_from t u us (rq.queue prio) (sym (same prio) ∙ e),
    );
  }

  without-IsValid : IsValid without
  without-IsValid =
      let b = left_bitmap-Bits (queue prio) refl in
      record {
        sized = b.sized;
        words = b.words;
        marked = λ i h. b.bits i ∙ elim (ℕ_discrete prio i) [
          | yes here ↦ rw here (ground arith)
          | no other ↦ rw (elsewhere i other) (ground (arith, other, s.valid.marked i h))
        ];
        no_more = λ i h. b.bits i ∙ ground (arith, s.valid.no_more i h, s.ranged t);
      }

  pub without-IsPlaced : IsPlaced without
  without-IsPlaced = record {
    valid = without-IsValid;
    ranged = λ u. ground (arith, s.ranged u, s.ranged t);
    placed = λ u i.
        ap (count_in u) (same i)
        ∙ count_in-remove_from u t (rq.queue i)
        ∙ ground (arith, s.placed u i, s.placed t i);
  }
