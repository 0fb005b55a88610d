-- ===== src/Sched/Histories.antt =====
-- Histories of the scheduler's functions, in any order.
use ocean_linux.Sched.Queues.{rq_init-IsValid}
use ocean_linux.Sched.Steps.{
  sched_add-IsPlaced, set_thread-IsPlaced, sched_remove-IsPlaced, sched_set_priority-IsPlaced,
  pick_next_thread-IsPlaced, sched_set_nice-IsPlaced, put_back-IsPlaced,
}
use ocean_linux.Sched.Places.{IsPlaced}
use ocean_linux.Sched.{
  RunQueue, sched_add, pick_next_thread, task_running, default_time_slice, word_mod, rq_init,
  Thread, max_prio,
}
use ocean_linux.Sched.Switch.{
  wake_up_all, Cpu, thread_wakeup, begin_sleep, switch_to, sched_tick, schedule_round, sched_wakeup,
  sched_remove, begin_wait, start_idle, sched_set_priority, end_sleep, sched_set_nice, set_thread,
  previous, same_thread, tick_thread, put_back, task_interruptible, tick_ns, task_uninterruptible,
}
use ocean_linux.Base.{
  ℕ, List, ◌∷◌, Option, [], some, Option-cases, inl, inr, true, false, none, refl, if◌then◌else◌,
  ◌+◌, ◌&&◌, ◌==◌, ◌%◌, ◌||◌, ◌≡◌, arith, ltb, ◌<◌, both_branches,
}

-- A step: a function of the scheduler, or the part of one up to schedule; schedule is a sequence of
-- rounds. The last one stands for the flag that sched_yield and other code set.
pub data Step : Type 0 where
  add_step remove_step wakeup_step end_sleep_step flag_step : ℕ → Step
  round_step tick_step : Step
  priority_step nice_step sleep_step : ℕ → ℕ → Step
  channel_step : List ℕ → ℕ → Step
  wait_step : List ℕ → ℕ → Step
  wake_all_step : List ℕ → Step

unfoldable pub step : Cpu → Step → Cpu
unfolding sched_add sched_remove sched_wakeup schedule_round sched_tick sched_set_priority
    sched_set_nice begin_sleep end_sleep thread_wakeup begin_wait wake_up_all
step c (add_step t) = record c { rq = sched_add c.rq t }
step c (remove_step t) = record c { rq = sched_remove c.rq t }
step c (wakeup_step t) = sched_wakeup c t
step c (end_sleep_step t) = end_sleep c t
step c (flag_step t) = record c {
  rq = set_thread c.rq t (record (c.rq.threads t) { need_resched = true });
}
step c round_step = schedule_round c
step c tick_step = sched_tick c
step c (priority_step t prio) = record c { rq = sched_set_priority c.rq t prio }
step c (nice_step t nice) = record c { rq = sched_set_nice c.rq t nice }
step c (sleep_step t channel) = begin_sleep c t channel
step c (channel_step ts channel) = thread_wakeup c ts channel
step c (wait_step waiting t) = (begin_wait c waiting t).0
step c (wake_all_step waiting) = (wake_up_all c waiting).0

unfoldable pub run : Cpu → List Step → Cpu
unfolding step
run c [] = c
run c (x ∷ xs) = run (step c x) xs

-- The counters of a run queue play no part.
pub other_fields-IsPlaced :
    {rq : RunQueue}
    → IsPlaced rq
    → (other : RunQueue)
    → IsPlaced (record other { queue = rq.queue; bitmap = rq.bitmap; threads = rq.threads })
other_fields-IsPlaced s other = record {
  valid = record {
    sized = s.valid.sized;
    words = s.valid.words;
    marked = s.valid.marked;
    no_more = s.valid.no_more;
  };
  ranged = s.ranged;
  placed = s.placed;
}

abbrev CpuIsPlaced : Cpu → Type 0
CpuIsPlaced c = IsPlaced c.rq

switch_to-IsPlaced : (c : Cpu) (next : Option ℕ) → IsPlaced c.rq → IsPlaced (switch_to c next).rq
unfolding switch_to
switch_to-IsPlaced c none s = other_fields-IsPlaced s (switch_to c none).rq
switch_to-IsPlaced c (some next) s =
    other_fields-IsPlaced
      (set_thread-IsPlaced s next
        (record (c.rq.threads next) { last_run = c.global_ticks; need_resched = false }) refl refl)
      (switch_to c (some next)).rq

schedule_round-IsPlaced : (c : Cpu) → IsPlaced c.rq → IsPlaced (schedule_round c).rq
unfolding schedule_round
schedule_round-IsPlaced c s =
    let started : IsPlaced (start_idle c) = elim (Option-cases c.current) [
      | inl e ↦ rw e (other_fields-IsPlaced s (record c.rq { curr = c.rq.idle }))
      | inr (t, e) ↦ rw e s
    ] in
    let picked = pick_next_thread-IsPlaced (put_back-IsPlaced started (previous c)) in
    let now : Cpu = record c {
      rq = (pick_next_thread (put_back (start_idle c) (previous c))).0;
      current = previous c;
    } in
    let next = (pick_next_thread (put_back (start_idle c) (previous c))).1 in
    both_branches CpuIsPlaced (same_thread next (previous c)) now (switch_to now next) picked
      (switch_to-IsPlaced now next picked)

sched_tick-IsPlaced : (c : Cpu) → IsPlaced c.rq → IsPlaced (sched_tick c).rq
unfolding sched_tick tick_thread
sched_tick-IsPlaced c s = elim (Option-cases c.current) [
  | inl e ↦ rw (e, sched_tick) (other_fields-IsPlaced s (idled c))
  | inr (t, e) ↦
      rw (e, sched_tick)
        (both_branches CpuIsPlaced (same_thread (some t) c.rq.idle) _ _
          (both_branches IsPlaced (ltb 0 c.rq.nr_running)
            (set_thread (idled c) t (record (c.rq.threads t) { need_resched = true })) (idled c)
            (other_fields-IsPlaced
              (set_thread-IsPlaced s t (record (c.rq.threads t) { need_resched = true }) refl refl)
              (set_thread (idled c) t (record (c.rq.threads t) { need_resched = true })))
            (other_fields-IsPlaced s (idled c)))
          (other_fields-IsPlaced
            (set_thread-IsPlaced s t (tick_thread (c.rq.threads t)) (tick_thread-linked t)
              (tick_thread-priority t))
            (ticked t)))
]
  where
    idled : Cpu → RunQueue
    idled c = record c.rq {
      tick_count = (c.rq.tick_count + 1) % word_mod;
      idle_time = (c.rq.idle_time + tick_ns) % word_mod;
    }

    ticked : ℕ → RunQueue
    ticked t = record (set_thread c.rq t (tick_thread (c.rq.threads t))) {
      tick_count = (c.rq.tick_count + 1) % word_mod;
      total_time = (c.rq.total_time + tick_ns) % word_mod;
    }

    tick_thread-linked : (t : ℕ) → (tick_thread (c.rq.threads t)).linked ≡ (c.rq.threads t).linked
    tick_thread-linked t = ground arith

    tick_thread-priority :
        (t : ℕ) → (tick_thread (c.rq.threads t)).priority ≡ (c.rq.threads t).priority
    tick_thread-priority t = ground arith

sched_wakeup-IsPlaced : (c : Cpu) (t : ℕ) → IsPlaced c.rq → IsPlaced (sched_wakeup c t).rq
unfolding sched_wakeup
sched_wakeup-IsPlaced c t s =
    let thread = record (c.rq.threads t) {
      state = task_running;
      time_slice = default_time_slice;
    } in
    let ready = set_thread-IsPlaced s t thread refl refl in
    both_branches CpuIsPlaced ((c.rq.threads t).state == task_running) c _ s (
      both_branches CpuIsPlaced (same_thread (some t) c.current)
        (record c { rq = set_thread c.rq t thread })
        (record c { rq = sched_add (set_thread c.rq t thread) t }) ready
        (sched_add-IsPlaced ready t))

thread_wakeup-IsPlaced :
    (c : Cpu) (ts : List ℕ) (channel : ℕ) → IsPlaced c.rq → IsPlaced (thread_wakeup c ts channel).rq
unfolding thread_wakeup
thread_wakeup-IsPlaced c [] channel s = s
thread_wakeup-IsPlaced c (t ∷ ts) channel s =
    let waits =
      same_thread (c.rq.threads t).wait_channel (some channel)
      && (((c.rq.threads t).state == task_interruptible)
          || ((c.rq.threads t).state == task_uninterruptible)) in
    thread_wakeup-IsPlaced (if waits then sched_wakeup c t else c) ts channel
      (both_branches CpuIsPlaced waits (sched_wakeup c t) c (sched_wakeup-IsPlaced c t s) s)

wake_up_all-IsPlaced : (c : Cpu) (ts : List ℕ) → IsPlaced c.rq → IsPlaced (wake_up_all c ts).0.rq
unfolding wake_up_all
wake_up_all-IsPlaced c [] s = s
wake_up_all-IsPlaced c (t ∷ ts) s =
    wake_up_all-IsPlaced (sched_wakeup c t) ts (sched_wakeup-IsPlaced c t s)

step-IsPlaced : (c : Cpu) (x : Step) → IsPlaced c.rq → IsPlaced (step c x).rq
unfolding step begin_sleep begin_wait end_sleep
step-IsPlaced c (add_step t) s = sched_add-IsPlaced s t
step-IsPlaced c (remove_step t) s = sched_remove-IsPlaced s t
step-IsPlaced c (wakeup_step t) s = sched_wakeup-IsPlaced c t s
step-IsPlaced c (end_sleep_step t) s = set_thread-IsPlaced s t _ refl refl
step-IsPlaced c (flag_step t) s = set_thread-IsPlaced s t _ refl refl
step-IsPlaced c round_step s = schedule_round-IsPlaced c s
step-IsPlaced c tick_step s = sched_tick-IsPlaced c s
step-IsPlaced c (priority_step t prio) s = sched_set_priority-IsPlaced s t prio
step-IsPlaced c (nice_step t nice) s = sched_set_nice-IsPlaced s t nice
step-IsPlaced c (sleep_step t channel) s =
    sched_remove-IsPlaced (set_thread-IsPlaced s t _ refl refl) t
step-IsPlaced c (channel_step ts channel) s = thread_wakeup-IsPlaced c ts channel s
step-IsPlaced c (wait_step waiting t) s =
    sched_remove-IsPlaced (set_thread-IsPlaced s t _ refl refl) t
step-IsPlaced c (wake_all_step waiting) s = wake_up_all-IsPlaced c waiting s

-- After any history of steps of the scheduler, a thread that is linked is once in the queue of its
-- priority and no thread is anywhere else, and each bit of the bitmap says whether its queue holds
-- a thread.
pub run-IsPlaced : (c : Cpu) (xs : List Step) → IsPlaced c.rq → IsPlaced (run c xs).rq
unfolding run
run-IsPlaced c [] s = s
run-IsPlaced c (x ∷ xs) s = run-IsPlaced (step c x) xs (step-IsPlaced c x s)

-- A new run queue, with threads that are in no queue.
pub rq_init-IsPlaced :
    (threads : ℕ → Thread) (cpu_id : ℕ)
    → ((t : ℕ) → (threads t).linked ≡ false)
    → ((t : ℕ) → (threads t).priority < max_prio)
    → IsPlaced (rq_init threads cpu_id)
unfolding rq_init
rq_init-IsPlaced threads cpu_id apart ranged = record {
  valid = rq_init-IsValid threads cpu_id;
  ranged = ranged;
  placed = λ t i. rw (apart t) refl;
}
