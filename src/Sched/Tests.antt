-- ===== src/Sched/Tests.antt =====
-- A run queue with one thread, number 5, of priority 120.
use ocean_linux.Sched.Switch.{
  Cpu, sched_set_priority, take_off, remove_from, schedule_round, put_back, switch_to,
}
use ocean_linux.Sched.Histories.{
  run, rq_init-IsPlaced, run-IsPlaced, step, Step, add_step, priority_step, round_step,
}
use ocean_linux.Sched.Places.{IsPlaced}
use ocean_linux.Base.Bits.{bit}
use ocean_linux.Base.BitArray.{set_bit, clear_bit}
use ocean_linux.Sched.{
  pick_next_thread, bitmap_ffs, RunQueue, enqueue_thread_locked, ffs_from, rq_init, ctz_from,
  clamp_prio, dequeue_first, Thread, default_time_slice, sched_add,
}
use ocean_linux.Sched.Pick.{Picks, pick_next_thread_lem}
use ocean_linux.Sched.Queues.{IsValid, enqueue_thread_locked-IsValid, rq_init-IsValid}
use ocean_linux.Base.{false, ◌≡◌, some, refl, ℕ, none, List, arith, ◌∷◌, []}

abbrev new_threads : ℕ → Thread
new_threads t = record {
  state = 0;
  priority = 120;
  cpu = 0;
  linked = false;
  time_slice = default_time_slice;
  need_resched = false;
  wait_channel = none;
  nice = 0;
  system_time = 0;
  last_run = 0;
}

abbrev one_waiting : RunQueue
one_waiting = enqueue_thread_locked (rq_init new_threads 0) 5

enqueue_thread_locked-IsValid_example : IsValid one_waiting
enqueue_thread_locked-IsValid_example =
    enqueue_thread_locked-IsValid {rq = rq_init new_threads 0} (rq_init-IsValid new_threads 0) 5

pick_next_thread_lem_example : Picks one_waiting (pick_next_thread one_waiting).1
pick_next_thread_lem_example =
    pick_next_thread_lem {rq = one_waiting} enqueue_thread_locked-IsValid_example

picks_5 : (pick_next_thread one_waiting).1 ≡ some 5
unfolding pick_next_thread bitmap_ffs ffs_from ctz_from enqueue_thread_locked clamp_prio rq_init
    set_bit bit dequeue_first
picks_5 = refl

abbrev idle_cpu : Cpu
idle_cpu = record { rq = rq_init new_threads 0; current = some 0; global_ticks = 0 }

idle_cpu-IsPlaced : IsPlaced idle_cpu.rq
idle_cpu-IsPlaced = rq_init-IsPlaced new_threads 0 (λ t. refl) (λ t. omega arith)

-- Two threads come, one gets another priority, and the CPU goes on to the next thread.
abbrev four_steps : List Step
four_steps = add_step 5 ∷ add_step 6 ∷ priority_step 6 100 ∷ round_step ∷ []

run-IsPlaced_example : IsPlaced (run idle_cpu four_steps).rq
run-IsPlaced_example = run-IsPlaced idle_cpu four_steps idle_cpu-IsPlaced

-- The thread with the lower number of a priority runs.
runs_6 : (run idle_cpu four_steps).current ≡ some 6
unfolding run step sched_add enqueue_thread_locked clamp_prio rq_init sched_set_priority take_off
    remove_from schedule_round put_back pick_next_thread bitmap_ffs ffs_from ctz_from set_bit
    clear_bit bit dequeue_first switch_to
runs_6 = refl

-- Thread 5 runs and thread 0 is the idle thread.
abbrev one_running : Cpu
one_running = record {
  rq = record (rq_init new_threads 0) { idle = some 0 };
  current = some 5;
  global_ticks = 0;
}
