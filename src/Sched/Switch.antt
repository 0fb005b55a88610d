-- ===== src/Sched/Switch.antt =====
-- kernel/sched/core.c: the functions on the running thread: schedule, the timer tick, sleeping and
-- waking up, priorities. switch_to is modelled but for the registers, the page table and the kernel
-- stack of the next thread; what a thread does between two calls is another step. A thread that
-- sleeps gives up the CPU inside schedule, so thread_sleep and wait_event are cut there.
-- `all_threads` is the list of all threads, as an argument. nice is an int, given by its 32 bits.
use ocean_linux.Protocol.{negative}
use ocean_linux.Base.BitArray.{clear_bit, set_bit}
use ocean_linux.Sched.{
  Thread, enqueue_thread_locked, pick_next_thread, RunQueue, sched_add, clamp_prio, store, word_mod,
  task_running, default_time_slice,
}
use ocean_linux.Base.{
  ℕ, if◌then◌else◌, ◌*◌, Option, none, ◌^◌, ◌+◌, List, Bool, some, ◌∷◌, ◌%◌, [], ◌==◌, ◌&&◌, true,
  false, ◌++◌, ◌||◌, ltb, not, ◌-◌, suc, zero,
}

pub record Cpu : Type 0 where
  pub rq : RunQueue
  pub current : Option ℕ
  pub global_ticks : ℕ

abbrev pub task_interruptible : ℕ
task_interruptible = 1

abbrev pub task_uninterruptible : ℕ
task_uninterruptible = 2

abbrev pub tick_ns : ℕ
tick_ns = 10 * 1000 * 1000

abbrev pub default_prio : ℕ
default_prio = 120

abbrev pub int_mod : ℕ
int_mod = 2 ^ 32

abbrev pub set_thread : RunQueue → ℕ → Thread → RunQueue
set_thread rq t thread = record rq { threads = store rq.threads t thread }

-- Two threads that may be missing.
abbrev pub same_thread : Option ℕ → Option ℕ → Bool
same_thread none none = true
same_thread none (some u) = false
same_thread (some t) none = false
same_thread (some t) (some u) = t == u

-- list_del_init of a thread's run_list, in the list that holds it.
unfoldable pub remove_from : ℕ → List ℕ → List ℕ
remove_from t [] = []
remove_from t (u ∷ us) = if u == t then us else u ∷ remove_from t us

-- All queues without the thread, and the bit of the queue of its priority.
unfoldable pub take_off : RunQueue → ℕ → RunQueue
unfolding remove_from clear_bit
take_off rq t =
    let prio = (rq.threads t).priority in
    record rq {
      queue = λ i. remove_from t (rq.queue i);
      bitmap = elim (remove_from t (rq.queue prio)) [
        | [] ↦ clear_bit rq.bitmap prio
        | u ∷ us ↦ rq.bitmap
      ];
      threads = store rq.threads t (record (rq.threads t) { linked = false });
    }

unfoldable pub sched_remove : RunQueue → ℕ → RunQueue
unfolding take_off
sched_remove rq t =
    let off = take_off rq t in
    if (rq.threads t).linked
    then record off { nr_running = (rq.nr_running + word_mod - 1) % word_mod }
    else rq

unfoldable pub switch_to : Cpu → Option ℕ → Cpu
switch_to c none = record c { rq = record c.rq { curr = none }; current = none }
switch_to c (some next) = record c {
  rq =
      record (set_thread c.rq next
        (record (c.rq.threads next) { last_run = c.global_ticks; need_resched = false })) {
          curr = some next;
          switches = (c.rq.switches + 1) % word_mod;
        };
  current = some next;
}

-- The running thread goes back into its queue if it can run on.
unfoldable pub put_back : RunQueue → Option ℕ → RunQueue
unfolding enqueue_thread_locked
put_back rq none = rq
put_back rq (some prev) =
    if ((rq.threads prev).state == task_running) && not (same_thread (some prev) rq.idle)
    then enqueue_thread_locked rq prev
    else rq

-- The thread that gives up the CPU.
abbrev pub previous : Cpu → Option ℕ
previous c = elim c.current [ none ↦ c.rq.idle | some t ↦ some t ]

-- rq->curr, where no thread ran before.
abbrev pub start_idle : Cpu → RunQueue
start_idle c = elim c.current [ none ↦ record c.rq { curr = c.rq.idle } | some t ↦ c.rq ]

-- schedule up to preempt_enable.
unfoldable pub schedule_round : Cpu → Cpu
unfolding put_back pick_next_thread switch_to
schedule_round c =
    let out = pick_next_thread (put_back (start_idle c) (previous c)) in
    let now = record c { rq = out.0; current = previous c } in
    if same_thread out.1 (previous c) then now else switch_to now out.1

-- The test of preempt_enable, with the count back at 0.
abbrev pub must_reschedule : Cpu → Bool
must_reschedule c = elim c.current [ none ↦ false | some t ↦ (c.rq.threads t).need_resched ]

-- preempt_enable calls schedule again where the running thread is to be rescheduled; none where it
-- has done so as often as the first argument says.
unfoldable pub schedule : ℕ → Cpu → Option Cpu
unfolding schedule_round
schedule zero c = none
schedule (suc n) c =
    let after = schedule_round c in
    let again = schedule n after in if must_reschedule after then again else some after

unfoldable pub sched_yield : ℕ → Cpu → Option Cpu
unfolding schedule
sched_yield n c = elim c.current [
  | none ↦ none
  | some t ↦
      schedule n
        (record c { rq = set_thread c.rq t (record (c.rq.threads t) { need_resched = true }) })
]

-- The tick of a thread that is not the idle thread.
unfoldable pub tick_thread : Thread → Thread
tick_thread thread =
    let used = record thread { system_time = (thread.system_time + tick_ns) % word_mod } in
    if ltb tick_ns thread.time_slice
    then record used { time_slice = thread.time_slice - tick_ns }
    else record used { time_slice = default_time_slice; need_resched = true }

unfoldable pub sched_tick : Cpu → Cpu
unfolding tick_thread
sched_tick c =
    let rq = record c.rq { tick_count = (c.rq.tick_count + 1) % word_mod } in
    let idled = record rq { idle_time = (rq.idle_time + tick_ns) % word_mod } in
    let ticks = (c.global_ticks + 1) % word_mod in
    elim c.current [
      | none ↦ record c { rq = idled; global_ticks = ticks }
      | some t ↦
          if same_thread (some t) rq.idle
          then record c {
            rq =
                (if ltb 0 rq.nr_running
                  then set_thread idled t (record (rq.threads t) { need_resched = true })
                  else idled);
            global_ticks = ticks;
          }
          else record c {
            rq = record (set_thread rq t (tick_thread (rq.threads t))) {
              total_time = (rq.total_time + tick_ns) % word_mod;
            };
            global_ticks = ticks;
          }
    ]

unfoldable pub sched_wakeup : Cpu → ℕ → Cpu
unfolding sched_add
sched_wakeup c t =
    let thread = c.rq.threads t in
    let ready =
      set_thread c.rq t (record thread { state = task_running; time_slice = default_time_slice }) in
    if thread.state == task_running
    then c
    else if same_thread (some t) c.current
    then record c { rq = ready }
    else record c { rq = sched_add ready t }

unfoldable pub sched_set_priority : RunQueue → ℕ → ℕ → RunQueue
unfolding take_off clamp_prio set_bit
sched_set_priority rq t priority =
    let prio = clamp_prio priority in
    let off = take_off rq t in
    if (rq.threads t).linked
    then record off {
      queue = store off.queue prio (off.queue prio ++ (t ∷ []));
      bitmap = set_bit off.bitmap prio;
      threads = store off.threads t (record (off.threads t) { priority = prio; linked = true });
    }
    else set_thread rq t (record (rq.threads t) { priority = prio })

-- A nice value, brought into the range from -20 to 19.
unfoldable pub clamp_nice : ℕ → ℕ
clamp_nice nice =
    let low = (if negative nice && ltb nice (int_mod - 20) then int_mod - 20 else nice) in
    if not (negative low) && ltb 19 low then 19 else low

unfoldable pub sched_set_nice : RunQueue → ℕ → ℕ → RunQueue
unfolding sched_set_priority clamp_nice
sched_set_nice rq t value =
    let nice = clamp_nice value in
    sched_set_priority (set_thread rq t (record (rq.threads t) { nice = nice })) t
      ((nice + default_prio) % int_mod)

-- thread_sleep of the thread `t` up to schedule.
unfoldable pub begin_sleep : Cpu → ℕ → ℕ → Cpu
unfolding sched_remove
begin_sleep c t channel =
    let asleep =
      set_thread c.rq t
        (record (c.rq.threads t) { wait_channel = some channel; state = task_interruptible }) in
    record c { rq = sched_remove asleep t }

-- Up to the switch to another thread.
unfoldable pub thread_sleep : ℕ → Cpu → ℕ → Option Cpu
unfolding begin_sleep schedule
thread_sleep n c channel = elim c.current [
  | none ↦ some c
  | some t ↦ schedule n (begin_sleep c t channel)
]

-- The wait queue holds the threads' names. wait_event of the thread `t` up to schedule.
unfoldable pub begin_wait : Cpu → List ℕ → ℕ → Cpu × List ℕ
unfolding sched_remove
begin_wait c waiting t =
    let asleep = set_thread c.rq t (record (c.rq.threads t) { state = task_interruptible }) in
    (record c { rq = sched_remove asleep t }, waiting ++ (t ∷ []))

-- After the thread was woken.
unfoldable pub end_sleep : Cpu → ℕ → Cpu
end_sleep c t = record c {
  rq = set_thread c.rq t (record (c.rq.threads t) { wait_channel = none });
}

-- The loop over all threads.
unfoldable pub thread_wakeup : Cpu → List ℕ → ℕ → Cpu
unfolding sched_wakeup
thread_wakeup c [] channel = c
thread_wakeup c (t ∷ ts) channel =
    let thread = c.rq.threads t in
    let blocked = (thread.state == task_interruptible) || (thread.state == task_uninterruptible) in
    let next =
      (if same_thread thread.wait_channel (some channel) && blocked then sched_wakeup c t else c) in
    thread_wakeup next ts channel

unfoldable pub wake_up : Cpu → List ℕ → Cpu × List ℕ
unfolding sched_wakeup
wake_up c [] = (c, [])
wake_up c (t ∷ ts) = (sched_wakeup c t, ts)

unfoldable pub wake_up_all : Cpu → List ℕ → Cpu × List ℕ
unfolding sched_wakeup
wake_up_all c [] = (c, [])
wake_up_all c (t ∷ ts) = wake_up_all (sched_wakeup c t) ts
