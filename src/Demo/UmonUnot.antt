-- ===== src/Demo/UmonUnot.antt =====
-- user_monitor_user_notification/thread_test_umon_unot.c.
use htsynch.Base.{ℕ, true, Option, none, some}
use htsynch.Monitor.Defs.{monitored_mem_bytes}
use htsynch.Monitor.Kernel.{align_boundary, malloc_aligned}
use htsynch.Cpu.Older.{Cpus}
use htsynch.Demo.Placement.{cpuset}
use htsynch.Demo.Threads.{Program, Demo, sleeper_at, notifier_at, begin}

-- SLEEP_TIME, NOTIFY_TIME and END_TIME
abbrev pub times : Program
times = record { sleep_time = 5; notify_time = 10; end_time = 20; reports = true }

abbrev pub sleeper_cpuset : Cpus → Option ℕ
sleeper_cpuset cpus = cpuset cpus 0 0

abbrev pub notifier_cpuset : Cpus → Option ℕ
notifier_cpuset cpus = cpuset cpus 0 1

abbrev pub sleeper : Demo → Demo
sleeper d = sleeper_at times d.sleeper.stage d

abbrev pub notifier : Demo → Demo
notifier d = notifier_at times d.notifier.stage d

-- Up to the start of the threads; `none` if the process exits. The byte is as `malloc` leaves it in
-- `bytes`.
abbrev pub main : (ℕ → ℕ) → (ℕ → ℕ) → Option Demo
main malloc bytes = elim (malloc_aligned malloc monitored_mem_bytes align_boundary) [
  | none ↦ none
  | some p ↦ some (begin (bytes p))
]
