-- ===== src/Sched/Queues.antt =====
-- The invariant of the run queue: a bit of the bitmap is set exactly where the queue holds a
-- thread.
use ocean_linux.Base.BitArray.{
  AreWords, test_bit, set_bit, length-set_bit, set_bit-AreWords, test_bit-set_bit, zeros-AreWords,
  test_bit-zeros,
}
use ocean_linux.Sched.{
  enqueue_thread_locked, clamp_prio, RunQueue, max_prio, store, word_mod, rq_init, Thread,
}
use ocean_linux.Base.{
  ℕ, List, Bool, ◌++◌, false, ◌<◌, ◌∷◌, length, true, ◌≡◌, [], refl, arith, ◌+◌, ◌≤◌, ◌%◌, ◌/◌, ◌∙◌,
  Bool-cases, inl, inr,
}

abbrev pub holds_some : List ℕ → Bool
holds_some [] = false
holds_some (t ∷ ts) = true

pub record IsValid (rq : RunQueue) : Type 0 where
  pub sized : length rq.bitmap ≡ 3
  pub words : AreWords rq.bitmap
  pub marked : (i : ℕ) → i < max_prio → test_bit rq.bitmap i ≡ holds_some (rq.queue i)
  pub no_more : (i : ℕ) → max_prio ≤ i → test_bit rq.bitmap i ≡ false

pub clamp_prio_lt : (p : ℕ) → clamp_prio p < max_prio
unfolding clamp_prio
clamp_prio_lt p = ground arith

holds_some-append : (ts : List ℕ) (t : ℕ) → holds_some (ts ++ (t ∷ [])) ≡ true
holds_some-append [] t = refl
holds_some-append (s ∷ ts) t = refl

-- A queue with one more thread at its end, and its bit.
module _ {rq : RunQueue} (v : IsValid rq) (t prio : ℕ) (small : prio < max_prio)
    (threads : ℕ → Thread) (running : ℕ) where
  abbrev pub added : RunQueue
  added = record rq {
    queue = store rq.queue prio (rq.queue prio ++ (t ∷ []));
    bitmap = set_bit rq.bitmap prio;
    nr_running = running;
    threads = threads;
  }

  pub added-IsValid : IsValid added
  added-IsValid =
      let fits : prio / 64 < length rq.bitmap = omega (arith, v.sized) in
      record {
        sized = length-set_bit rq.bitmap prio ∙ v.sized;
        words = set_bit-AreWords rq.bitmap prio fits v.words;
        marked = λ i h. ground (
          arith,
          v.marked i h,
          test_bit-set_bit rq.bitmap prio fits i,
          holds_some-append (rq.queue prio) t,
        );
        no_more = λ i h. ground (arith, v.no_more i h, test_bit-set_bit rq.bitmap prio fits i);
      }

-- enqueue_thread_locked keeps the bitmap in step with the queues.
pub enqueue_thread_locked-IsValid :
    {rq : RunQueue} → IsValid rq → (t : ℕ) → IsValid (enqueue_thread_locked rq t)
unfolding enqueue_thread_locked
enqueue_thread_locked-IsValid {rq} v t = elim (Bool-cases (rq.threads t).linked) [
  | inl already ↦ rw (already, enqueue_thread_locked) v
  | inr apart ↦
      rw (apart, enqueue_thread_locked)
        (added-IsValid v t (clamp_prio (rq.threads t).priority)
          (clamp_prio_lt (rq.threads t).priority)
          (store rq.threads t (record (rq.threads t) { cpu = rq.cpu_id; linked = true }))
          ((rq.nr_running + 1) % word_mod))
]

pub rq_init-IsValid : (threads : ℕ → Thread) (cpu_id : ℕ) → IsValid (rq_init threads cpu_id)
unfolding rq_init
rq_init-IsValid threads cpu_id = record {
  sized = refl;
  words = zeros-AreWords 3;
  marked = λ i h. test_bit-zeros 3 i;
  no_more = λ i h. test_bit-zeros 3 i;
}
