-- ===== src/Demo/Counting.antt =====
-- The loops behind the barrier of kernel_monitor_user_notification_with_mmap/thread_test_kmon_unot.c,
-- built for KERNEL_2_6_13_1: the notifier counts in the shared page, and the sleeper waits for each
-- number in turn. Those of thread_test_kmon_unot_2regions.c are the same, but there two notifiers
-- share the counter.
use htsynch.Base.{ℕ, ◌+◌, ◌%◌, ◌^◌, ltb, signed_lt, Bool, true, false, if◌then◌else◌, List, [], ◌∷◌}
use htsynch.Monitor.Counter
use htsynch.Monitor.Counter.{Waiter, sys_mwmon_mmap_spin_while_greater, store_counter, interrupt}

abbrev pub first_count : ℕ
first_count = 10

abbrev pub last_count : ℕ
last_count = 20

-- The sleeper: before the test of its `for`, and in the system call.
pub data Stage : Type 0 where
  looping calling finished : Stage

-- The notifier: before the store of 0, and before the test of its `for`.
pub data Notifier : Type 0 where
  starting counting ended : Notifier

-- `call` is the sleeper's processor, with the byte it watches and the counter.
pub record Counting : Type 0 where
  pub stage : Stage
  pub i : ℕ
  pub notifier : Notifier
  pub call : Waiter

abbrev is_done : Counter.Pc → Bool
is_done Counter.Pc.done = true
is_done _ = false

abbrev pub sleeper_at : Stage → Counting → Counting
sleeper_at Stage.looping d =
    if ltb d.i last_count
    then record d { stage = Stage.calling; call = record d.call { pc = Counter.Pc.test } }
    else record d { stage = Stage.finished }
sleeper_at Stage.calling d =
    if is_done d.call.pc
    then record d { stage = Stage.looping; i = d.i + 1 }
    else record d { call = sys_mwmon_mmap_spin_while_greater d.i d.call }
sleeper_at Stage.finished d = d

-- The counter is a `long int`; one step tests it and counts on.
abbrev pub notifier_at : Notifier → Counting → Counting
notifier_at starting d = record d { notifier = counting; call = store_counter 0 d.call }
notifier_at counting d =
    if signed_lt (2 ^ 63) d.call.counter last_count
    then record d { call = store_counter ((d.call.counter + 1) % 2 ^ 64) d.call }
    else record d { notifier = ended }
notifier_at ended d = d

pub data Event : Type 0 where
  sleeper_runs notifier_runs interrupted : Event

unfoldable pub happens : Event → Counting → Counting
happens sleeper_runs d = sleeper_at d.stage d
happens notifier_runs d = notifier_at d.notifier d
happens interrupted d = record d { call = interrupt d.call }

-- The state after some events, the first one first.
abbrev pub after : List Event → Counting → Counting
after [] d = d
after (e ∷ es) d = after es (happens e d)

-- Behind the barrier, with `c` in the counter, which nothing has set.
abbrev pub begin : ℕ → ℕ → ℕ → Counting
begin area byte c = record {
  stage = Stage.looping;
  i = first_count;
  notifier = starting;
  call = record { pc = Counter.Pc.done; armed = false; area = area; byte = byte; counter = c };
}
