-- ===== src/Demo/KmonKnot.antt =====
-- kernel_monitor_kernel_notification/thread_test_kmon_knot.c.
use htsynch.Base.{ℕ, ◌==◌, if◌then◌else◌, false, Option, none, some}
use htsynch.Monitor.Kernel.{Kernel, sys_mwmon_kernel_init}
use htsynch.Cpu.Older.{Cpus}
use htsynch.Demo.Placement.{cpuset}
use htsynch.Demo.Threads.{Program, Demo, sleeper_at, notifier_at, begin}

-- SLEEP_TIME, NOTIFY_TIME and END_TIME
abbrev pub times : Program
times = record { sleep_time = 5; notify_time = 10; end_time = 20; reports = false }

abbrev pub sleeper_cpuset : Cpus → Option ℕ
sleeper_cpuset cpus = cpuset cpus 0 0

abbrev pub notifier_cpuset : Cpus → Option ℕ
notifier_cpuset cpus = cpuset cpus 0 1

abbrev pub sleeper : Demo → Demo
sleeper d = sleeper_at times d.sleeper.stage d

abbrev pub notifier : Demo → Demo
notifier d = notifier_at times d.notifier.stage d

-- Up to the start of the threads. What `mwmon_kernel_init` returns is not looked at: without memory
-- the threads run all the same, with the address 0, which is `none` here.
abbrev pub main : (ℕ → ℕ) → Kernel → Option Demo
main kmalloc k =
    let k' = (sys_mwmon_kernel_init kmalloc k).1 in
    if k'.memory == 0 then none else some (begin (k'.bytes k'.memory))
