-- ===== src/Sched/Yield.antt =====
-- sched_yield of a thread that runs alone.
use ocean_linux.Base.BitArray.{set_bit}
use ocean_linux.Sched.Places.{IsPlaced}
use ocean_linux.Sched.{RunQueue, dequeue_first, store, task_running, word_mod}
use ocean_linux.Sched.Switch.{Cpu, same_thread}
use ocean_linux.Base.{ℕ, ◌≡◌, [], false, some, ◌++◌, ◌∷◌, true, ◌+◌, ◌%◌}

-- The thread `t` runs, can run on, is flagged, and is the only thread that can run.
pub record Alone (c : Cpu) (t : ℕ) : Type 0 where
  pub placed : IsPlaced c.rq
  pub runs : c.current ≡ some t
  pub ready : (c.rq.threads t).state ≡ task_running
  pub not_idle : same_thread (some t) c.rq.idle ≡ false
  pub flagged : (c.rq.threads t).need_resched ≡ true
  pub empty : (i : ℕ) → c.rq.queue i ≡ []

module _ (c : Cpu) (t : ℕ) (a : Alone c t) where
  abbrev prio : ℕ
  prio = (c.rq.threads t).priority

  -- In the queue again.
  abbrev back : RunQueue
  back = record c.rq {
    queue = store c.rq.queue prio (c.rq.queue prio ++ (t ∷ []));
    bitmap = set_bit c.rq.bitmap prio;
    nr_running = (c.rq.nr_running + 1) % word_mod;
    threads = store c.rq.threads t (record (c.rq.threads t) { cpu = c.rq.cpu_id; linked = true });
  }

  abbrev after : Cpu
  after = record c { rq = dequeue_first back prio t []; current = some t }
