-- ===== src/Sched.antt =====
-- kernel/sched/core.c: the run queue of the one CPU, with struct run_queue of
-- kernel/include/ocean/sched.h and the fields of struct thread that it uses. A thread is named by
-- a number; the array of queues and the table of threads are functions from an index, and
-- `linked` says that the thread's run_list is in some queue. A priority is an int, given by its 32
-- bits. The lock is held over each call. Switch has the functions on the running thread.
pub mod Queues
pub mod Switch
pub mod Places
pub mod Steps
pub mod Histories
pub mod Yield
mod Tests
pub mod Pick
use ocean_linux.Base.Bits.{bit}
use ocean_linux.Protocol.{negative}
use ocean_linux.Base.BitArray.{clear_bit, set_bit}
use ocean_linux.Base.{
  ℕ, ◌^◌, if◌then◌else◌, Option, [], List, suc, Bool, none, replicate, take, ◌==◌, ◌+◌, ◌∷◌, leb,
  zero, ◌++◌, some, ◌-◌, ◌/◌, not, ◌%◌, true, false, ◌*◌,
}

pub record Thread : Type 0 where
  pub state : ℕ
  pub priority : ℕ
  pub cpu : ℕ
  pub linked : Bool
  pub time_slice : ℕ
  pub need_resched : Bool
  pub wait_channel : Option ℕ
  pub nice : ℕ
  pub system_time : ℕ
  pub last_run : ℕ

pub record RunQueue : Type 0 where
  pub nr_running : ℕ
  pub queue : ℕ → List ℕ
  pub bitmap : List ℕ
  pub idle : Option ℕ
  pub curr : Option ℕ
  pub switches : ℕ
  pub total_time : ℕ
  pub idle_time : ℕ
  pub tick_count : ℕ
  pub cpu_id : ℕ
  pub threads : ℕ → Thread

abbrev pub max_prio : ℕ
max_prio = 140

abbrev pub word_mod : ℕ
word_mod = 2 ^ 64

abbrev pub task_running : ℕ
task_running = 0

abbrev pub default_time_slice : ℕ
default_time_slice = 10 * 1000 * 1000

-- A store into an array.
abbrev pub store {ℓ} : {A : Type ℓ} → (ℕ → A) → ℕ → A → ℕ → A
store f i v j = if i == j then v else f j

-- __builtin_ctzll of a word that is not zero, searched from bit `j` on.
unfoldable pub ctz_from : ℕ → ℕ → ℕ → ℕ
ctz_from zero j word = j
ctz_from (suc n) j word = if bit word j then j else ctz_from n (suc j) word

-- The loop over the words, the first of which has index `i`.
unfoldable pub ffs_from : List ℕ → ℕ → Option ℕ
unfolding ctz_from
ffs_from [] i = none
ffs_from (word ∷ words) i =
    if not (word == 0) then some (i * 64 + ctz_from 64 0 word) else ffs_from words (suc i)

unfoldable pub bitmap_ffs : List ℕ → ℕ → Option ℕ
unfolding ffs_from
bitmap_ffs bitmap nbits = ffs_from (take ((nbits + 63) / 64) bitmap) 0

unfoldable pub rq_init : (ℕ → Thread) → ℕ → RunQueue
rq_init threads cpu_id = record {
  nr_running = 0;
  queue = λ i. [];
  bitmap = replicate 3 0;
  idle = none;
  curr = none;
  switches = 0;
  total_time = 0;
  idle_time = 0;
  tick_count = 0;
  cpu_id = cpu_id;
  threads = threads;
}

-- The priority, brought into the range of the queues.
unfoldable pub clamp_prio : ℕ → ℕ
clamp_prio priority =
    let low = (if negative priority then 0 else priority) in
    if leb max_prio low then max_prio - 1 else low

unfoldable pub enqueue_thread_locked : RunQueue → ℕ → RunQueue
unfolding clamp_prio set_bit
enqueue_thread_locked rq t =
    let prio = clamp_prio (rq.threads t).priority in
    if (rq.threads t).linked then rq else record rq {
      queue = store rq.queue prio (rq.queue prio ++ (t ∷ []));
      bitmap = set_bit rq.bitmap prio;
      nr_running = (rq.nr_running + 1) % word_mod;
      threads = store rq.threads t (record (rq.threads t) { cpu = rq.cpu_id; linked = true });
    }

unfoldable pub sched_add : RunQueue → ℕ → RunQueue
unfolding enqueue_thread_locked
sched_add rq t =
    enqueue_thread_locked
      (record rq { threads = store rq.threads t (record (rq.threads t) { state = task_running }) })
      t

-- list_del_init of the head of a queue, and the bit of a queue that is then empty.
unfoldable pub dequeue_first : RunQueue → ℕ → ℕ → List ℕ → RunQueue
unfolding clear_bit
dequeue_first rq prio next rest = record rq {
  queue = store rq.queue prio rest;
  nr_running = (rq.nr_running + word_mod - 1) % word_mod;
  threads = store rq.threads next (record (rq.threads next) { linked = false });
  bitmap = elim rest [ [] ↦ clear_bit rq.bitmap prio | t ∷ ts ↦ rq.bitmap ];
}

-- The thread that is picked, with the idle thread where no bit is set. Where a bit is set and the
-- queue is empty the source reads past the list; the queue is left as it is here.
unfoldable pub pick_next_thread : RunQueue → RunQueue × Option ℕ
unfolding bitmap_ffs dequeue_first
pick_next_thread rq = elim (bitmap_ffs rq.bitmap max_prio) [
  | none ↦ (rq, rq.idle)
  | some prio ↦ elim (rq.queue prio) [
    | [] ↦ (rq, none)
    | next ∷ rest ↦ (dequeue_first rq prio next rest, some next)
  ]
]
