-- ===== src/Sched/Steps.antt =====
-- Every function of the scheduler keeps the queues in order.
use ocean_linux.Base.BitArray.{clear_bit}
use ocean_linux.Sched.Queues.{clamp_prio_lt}
use ocean_linux.Sched.Places.{
  IsPlaced, without-IsPlaced, added-IsPlaced, clamp_prio-ranged, count_in, remove_from-absent,
}
use ocean_linux.Sched.{
  sched_add, pick_next_thread, dequeue_first, enqueue_thread_locked, RunQueue, Thread, task_running,
  bitmap_ffs, max_prio, clamp_prio, word_mod, store,
}
use ocean_linux.Sched.Switch.{
  sched_remove, sched_set_priority, take_off, set_thread, remove_from, sched_set_nice, put_back,
  clamp_nice, default_prio, int_mod, same_thread,
}
use ocean_linux.Base.{
  ℕ, Option-cases, List, Bool-cases, ◌≡◌, true, inl, inr, refl, arith, ◌∷◌, ◌+◌, List-cases, ◌-◌,
  ◌%◌, sym, ◌<◌, if◌then◌else◌, false, ℕ_discrete, ◌&&◌, ◌∙◌, ◌==◌, ap, subst, Bool, [], Option,
  some, not, none,
}

enqueue_thread_locked-IsPlaced :
    {rq : RunQueue} → IsPlaced rq → (t : ℕ) → IsPlaced (enqueue_thread_locked rq t)
unfolding enqueue_thread_locked
enqueue_thread_locked-IsPlaced {rq} s t = elim (Bool-cases (rq.threads t).linked) [
  | inl already ↦ rw (already, enqueue_thread_locked) s
  | inr apart ↦
      let prio = clamp_prio (rq.threads t).priority in
      rw (apart, enqueue_thread_locked)
        (added-IsPlaced s t prio (clamp_prio_lt (rq.threads t).priority) apart
          (record (rq.threads t) { cpu = rq.cpu_id; linked = true }) refl
          (sym (clamp_prio-ranged (rq.threads t).priority (s.ranged t)))
          ((rq.nr_running + 1) % word_mod))
]

-- A thread may change in all but its place.
module _ {rq : RunQueue} (s : IsPlaced rq) (t : ℕ) (thread : Thread)
    (linked : thread.linked ≡ (rq.threads t).linked)
    (priority : thread.priority ≡ (rq.threads t).priority) where
  pub set_thread-IsPlaced : IsPlaced (set_thread rq t thread)
  set_thread-IsPlaced = record {
    valid = record {
      sized = s.valid.sized;
      words = s.valid.words;
      marked = s.valid.marked;
      no_more = s.valid.no_more;
    };
    ranged = λ u. ground (arith, s.ranged u, s.ranged t, priority);
    placed = λ u i. ground (arith, s.placed u i, s.placed t i, linked, priority);
  }

pub sched_add-IsPlaced : {rq : RunQueue} → IsPlaced rq → (t : ℕ) → IsPlaced (sched_add rq t)
unfolding sched_add
sched_add-IsPlaced {rq} s t =
    enqueue_thread_locked-IsPlaced
      (set_thread-IsPlaced s t (record (rq.threads t) { state = task_running }) refl refl) t

take_off-IsPlaced :
    {rq : RunQueue}
    → IsPlaced rq
    → (t running : ℕ) → (rq.threads t).linked ≡ true
    → IsPlaced (record (take_off rq t) { nr_running = running })
unfolding take_off
take_off-IsPlaced {rq} s t running linked =
    without-IsPlaced s t linked (λ i. remove_from t (rq.queue i)) (λ i. refl) running

pub sched_remove-IsPlaced : {rq : RunQueue} → IsPlaced rq → (t : ℕ) → IsPlaced (sched_remove rq t)
unfolding sched_remove
sched_remove-IsPlaced {rq} s t = elim (Bool-cases (rq.threads t).linked) [
  | inl linked ↦
      rw (linked, sched_remove)
        (take_off-IsPlaced s t ((rq.nr_running + word_mod - 1) % word_mod) linked)
  | inr apart ↦ rw (apart, sched_remove) s
]

dequeue_first-IsPlaced :
    {rq : RunQueue}
    → IsPlaced rq
    → (next : ℕ) (rest : List ℕ) → (rq.threads next).linked ≡ true
    → rq.queue (rq.threads next).priority ≡ next ∷ rest
    → IsPlaced (dequeue_first rq (rq.threads next).priority next rest)
unfolding dequeue_first remove_from
dequeue_first-IsPlaced {rq} s next rest linked e =
    let prio = (rq.threads next).priority in
    let left : store rq.queue prio rest prio ≡ rest = ground arith in
    subst
      (λ us. IsPlaced (record rq {
        queue = store rq.queue prio rest;
        nr_running = (rq.nr_running + word_mod - 1) % word_mod;
        threads = store rq.threads next (record (rq.threads next) { linked = false });
        bitmap = elim us [ [] ↦ clear_bit rq.bitmap prio | t ∷ ts ↦ rq.bitmap ];
      }))
      left
      (without-IsPlaced s next linked (store rq.queue prio rest) same
        ((rq.nr_running + word_mod - 1) % word_mod))
  where
    same :
        (i : ℕ) → store rq.queue (rq.threads next).priority rest i ≡ remove_from next (rq.queue i)
    same i = elim (ℕ_discrete (rq.threads next).priority i) [
      | yes here ↦ rw (← here, e) (ground arith)
      | no other ↦
          let absent : count_in next (rq.queue i) ≡ 0 = s.placed next i ∙ ground (arith, other) in
          sym (remove_from-absent next (rq.queue i) absent ∙ ground (arith, other))
    ]

-- The first thread of a queue.
first_linked :
    {rq : RunQueue}
    → IsPlaced rq
    → (prio next : ℕ) (rest : List ℕ) → rq.queue prio ≡ next ∷ rest
    → ((rq.threads next).linked ≡ true) × ((rq.threads next).priority ≡ prio)
first_linked {rq} s prio next rest found =
    let here : 1 + count_in next rest
        ≡ (if (rq.threads next).linked && ((rq.threads next).priority == prio) then 1 else 0) =
      sym (ap (count_in next) found ∙ ground arith) ∙ s.placed next prio in
    (ground (arith, here), ground (arith, here))

pub pick_next_thread-IsPlaced : {rq : RunQueue} → IsPlaced rq → IsPlaced (pick_next_thread rq).0
unfolding pick_next_thread
pick_next_thread-IsPlaced {rq} s = elim (Option-cases (bitmap_ffs rq.bitmap max_prio)) [
  | inl e ↦ rw (e, pick_next_thread) s
  | inr (prio, e) ↦ elim (List-cases (rq.queue prio)) [
    | inl empty ↦ rw (e, empty, pick_next_thread) s
    | inr (next, rest, found) ↦
        let (linked, same) = first_linked s prio next rest found in
        let at_prio : rq.queue (rq.threads next).priority ≡ next ∷ rest =
          ap rq.queue same ∙ found in
        rw (e, found, pick_next_thread)
          (subst (λ p. IsPlaced (dequeue_first rq p next rest)) same
            (dequeue_first-IsPlaced s next rest linked at_prio))
  ]
]

-- A thread that is not linked may have any priority of the range.
module _ {rq : RunQueue} (s : IsPlaced rq) (t prio : ℕ) (small : prio < max_prio)
    (apart : (rq.threads t).linked ≡ false) where
  new_priority-IsPlaced : IsPlaced (set_thread rq t (record (rq.threads t) { priority = prio }))
  new_priority-IsPlaced = record {
    valid = record {
      sized = s.valid.sized;
      words = s.valid.words;
      marked = s.valid.marked;
      no_more = s.valid.no_more;
    };
    ranged = λ u. ground (arith, s.ranged u, small);
    placed = λ u i. ground (arith, s.placed u i, s.placed t i, apart);
  }

-- The branch of a test.
pub if_true {ℓ} : {A : Type ℓ} {b : Bool} {x : A} (y : A) → b ≡ true → (if b then x else y) ≡ x
if_true y e = rw e refl

if_false {ℓ} : {A : Type ℓ} {b : Bool} (x : A) {y : A} → b ≡ false → (if b then x else y) ≡ y
if_false x e = rw e refl

pub sched_set_priority-IsPlaced :
    {rq : RunQueue} → IsPlaced rq → (t priority : ℕ) → IsPlaced (sched_set_priority rq t priority)
unfolding sched_set_priority take_off
sched_set_priority-IsPlaced {rq} s t priority = elim (Bool-cases (rq.threads t).linked) [
  | inr apart ↦
      subst IsPlaced (sym (if_false _ apart))
        (new_priority-IsPlaced s t (clamp_prio priority) (clamp_prio_lt priority) apart)
  | inl linked ↦
      let off = take_off-IsPlaced s t rq.nr_running linked in
      subst IsPlaced (sym (if_true _ linked)) (
        added-IsPlaced off t (clamp_prio priority) (clamp_prio_lt priority) (ground arith)
          (record ((take_off rq t).threads t) { priority = clamp_prio priority; linked = true })
          refl refl rq.nr_running)
]

pub sched_set_nice-IsPlaced :
    {rq : RunQueue} → IsPlaced rq → (t value : ℕ) → IsPlaced (sched_set_nice rq t value)
unfolding sched_set_nice
sched_set_nice-IsPlaced {rq} s t value =
    sched_set_priority-IsPlaced
      (set_thread-IsPlaced s t (record (rq.threads t) { nice = clamp_nice value }) refl refl) t
      ((clamp_nice value + default_prio) % int_mod)

pub put_back-IsPlaced : {rq : RunQueue} → IsPlaced rq → (t : Option ℕ) → IsPlaced (put_back rq t)
unfolding put_back
put_back-IsPlaced s none = s
put_back-IsPlaced {rq} s (some t) =
    elim (Bool-cases
      (((rq.threads t).state == task_running) && not (same_thread (some t) rq.idle))) [
        | inl yes_back ↦
            subst IsPlaced (sym (if_true _ yes_back)) (enqueue_thread_locked-IsPlaced s t)
        | inr not_back ↦ subst IsPlaced (sym (if_false _ not_back)) s
      ]
