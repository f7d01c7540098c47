-- ===== src/Demo/TwoRegions.antt =====
-- kernel_monitor_user_notification_with_mmap/thread_test_kmon_unot_2regions.c, to the end of the
-- first loops; the loops behind the second barrier, which are built for KERNEL_2_6_13_1 only, are as
-- in Demo/Counting.
use htsynch.Base.{ℕ, ◌+◌, ◌==◌, if◌then◌else◌, true, Option, none, some}
use htsynch.Monitor.Defs
use htsynch.Monitor.Defs.{original_val}
use htsynch.Monitor.Counter.{lint_var_offset}
use htsynch.LockedBarrier.Defs.{
  SpinBarrier, spin_barrier_init, spin_barrier_init_lsense, System, init, turn, macro,
}
use htsynch.Cpu.Older.{Cpus}
use htsynch.Demo.Device.{map_device}
use htsynch.Demo.Placement.{cpuset}
use htsynch.Demo.Threads.{Program, Stage, placing, Demo, begin, sleeper_at, notifier_at}

-- SLEEP_TIME_PACK0 and the others
abbrev pub sleep_time_pack0 : ℕ
sleep_time_pack0 = 5

abbrev pub notify_time_pack0 : ℕ
notify_time_pack0 = 15

abbrev pub sleep_time_pack1 : ℕ
sleep_time_pack1 = 8

abbrev pub notify_time_pack1 : ℕ
notify_time_pack1 = 13

abbrev pub end_time : ℕ
end_time = 20

abbrev pub monitored_regions_distance : ℕ
monitored_regions_distance = 512

-- `targs_t` without the package, which is only printed; the sets of processors are `cpuset0` and the
-- others below.
pub record Targs : Type 0 where
  pub id : ℕ
  pub lsense : ℕ
  pub sleep_time : ℕ
  pub notify_time : ℕ

-- What `main` leaves in the four; a time that it does not set is 0.
abbrev pub ta0 : Targs
ta0 = record {
  id = 0;
  lsense = spin_barrier_init_lsense;
  sleep_time = sleep_time_pack0;
  notify_time = 0;
}

abbrev pub ta1 : Targs
ta1 = record {
  id = 1;
  lsense = spin_barrier_init_lsense;
  sleep_time = 0;
  notify_time = notify_time_pack0;
}

abbrev pub ta2 : Targs
ta2 = record {
  id = 2;
  lsense = spin_barrier_init_lsense;
  sleep_time = sleep_time_pack1;
  notify_time = 0;
}

abbrev pub ta3 : Targs
ta3 = record {
  id = 3;
  lsense = spin_barrier_init_lsense;
  sleep_time = 0;
  notify_time = notify_time_pack1;
}

-- The barrier of the four threads, which are its threads by their ids, and the two monitored
-- regions, each with the threads that use it. The regions are on lines of their own, so that a store
-- to one does not disarm the processor that watches the other.
pub record Regions : Type 0 where
  pub barrier : System
  pub first : Demo
  pub second : Demo

abbrev pub times : Targs → Program
times ta = record {
  sleep_time = ta.sleep_time;
  notify_time = ta.notify_time;
  end_time = end_time;
  reports = true;
}

-- A thread that is bound to its processor calls SPIN_BARRIER_LSENSE, and goes on when that has
-- returned.
abbrev pub meets : ℕ → Stage → Regions → Regions → Regions
meets id placing on r = on
meets id stage on r =
    if (r.barrier.threads id).left == 0 then record r { barrier = turn macro r.barrier id } else on

abbrev first_sleeps : Targs → Regions → Regions
first_sleeps ta r =
    let stage = r.first.sleeper.stage in
    meets ta.id stage (record r { first = sleeper_at (times ta) stage r.first }) r

abbrev second_sleeps : Targs → Regions → Regions
second_sleeps ta r =
    let stage = r.second.sleeper.stage in
    meets ta.id stage (record r { second = sleeper_at (times ta) stage r.second }) r

abbrev first_notifies : Targs → Regions → Regions
first_notifies ta r =
    let stage = r.first.notifier.stage in
    meets ta.id stage (record r { first = notifier_at (times ta) stage r.first }) r

abbrev second_notifies : Targs → Regions → Regions
second_notifies ta r =
    let stage = r.second.notifier.stage in
    meets ta.id stage (record r { second = notifier_at (times ta) stage r.second }) r

-- `none` for an id that leaves the region unset.
abbrev pub sleeper : Targs → Regions → Option Regions
sleeper ta r =
    if ta.id == 0
    then some (first_sleeps ta r)
    else if ta.id == 2
    then some (second_sleeps ta r)
    else none

abbrev pub notifier : Targs → Regions → Option Regions
notifier ta r =
    if ta.id == 1
    then some (first_notifies ta r)
    else if ta.id == 3
    then some (second_notifies ta r)
    else none

-- When the four threads start, with the bytes as opening the device leaves them.
abbrev pub begin_regions : Regions
begin_regions = record { barrier = init 4; first = begin original_val; second = begin original_val }

-- What `main` has set up when it starts the threads.
pub record Globals : Type 0 where
  pub mmapped_device_memory : ℕ
  pub mmapped_device_memory2 : ℕ
  pub lint_counter_addr : ℕ
  pub barrier : SpinBarrier
  pub cpuset0 : Option ℕ
  pub cpuset1 : Option ℕ
  pub cpuset2 : Option ℕ
  pub cpuset3 : Option ℕ

-- `none` if the process exits.
abbrev pub main : Cpus → Option ℕ → (ℕ → ℕ → ℕ → Option ℕ) → ℕ → Option Globals
main cpus opened mmap page = elim (map_device opened mmap page) [
  | none ↦ none
  | some area ↦ some (record {
    mmapped_device_memory = area;
    mmapped_device_memory2 = area + monitored_regions_distance;
    lint_counter_addr = area + lint_var_offset;
    barrier = spin_barrier_init 4;
    cpuset0 = cpuset cpus 0 0;
    cpuset1 = cpuset cpus 0 1;
    cpuset2 = cpuset cpus 1 0;
    cpuset3 = cpuset cpus 1 1;
  })
]

-- The stores of `main` once the four threads have ended.
abbrev pub main_end : Regions → Regions
main_end r = record {
  barrier = r.barrier;
  first = record r.first { call = Defs.notify r.first.call };
  second = record r.second { call = Defs.notify r.second.call };
}
