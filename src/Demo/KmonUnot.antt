-- ===== src/Demo/KmonUnot.antt =====
-- kernel_monitor_user_notification_with_mmap/thread_test_kmon_unot.c, to the end of the first loops;
-- Demo/Counting has the loops behind the barrier, which are built for KERNEL_2_6_13_1 only.
use htsynch.Base.{ℕ, ◌+◌, true, Option, none, some}
use htsynch.Monitor.Defs
use htsynch.Monitor.Counter.{lint_var_offset}
use htsynch.LockedBarrier.Defs.{SpinBarrier, spin_barrier_init, spin_barrier_init_lsense}
use htsynch.Cpu.Older.{Cpus}
use htsynch.Demo.Device.{map_device}
use htsynch.Demo.Placement.{cpuset}
use htsynch.Demo.Threads.{Program, Demo, sleeper_at, notifier_at}

-- SLEEP_TIME, NOTIFY_TIME and END_TIME
abbrev pub times : Program
times = record { sleep_time = 5; notify_time = 10; end_time = 20; reports = true }

abbrev pub sleeper_cpuset : Cpus → Option ℕ
sleeper_cpuset cpus = cpuset cpus 0 0

abbrev pub notifier_cpuset : Cpus → Option ℕ
notifier_cpuset cpus = cpuset cpus 0 1

abbrev pub sleeper : Demo → Demo
sleeper d = sleeper_at times d.sleeper.stage d

abbrev pub notifier : Demo → Demo
notifier d = notifier_at times d.notifier.stage d

-- What `main` has set up when it starts the threads.
pub record Globals : Type 0 where
  pub mmapped_device_memory : ℕ
  pub lint_counter_addr : ℕ
  pub barrier : SpinBarrier
  pub lsense0 : ℕ
  pub lsense1 : ℕ

-- `none` if the process exits.
abbrev pub main : Option ℕ → (ℕ → ℕ → ℕ → Option ℕ) → ℕ → Option Globals
main opened mmap page = elim (map_device opened mmap page) [
  | none ↦ none
  | some area ↦ some (record {
    mmapped_device_memory = area;
    lint_counter_addr = area + lint_var_offset;
    barrier = spin_barrier_init 2;
    lsense0 = spin_barrier_init_lsense;
    lsense1 = spin_barrier_init_lsense;
  })
]

-- The store of `main` once both threads have ended.
abbrev pub main_end : Demo → Demo
main_end d = record d { call = Defs.notify d.call }
