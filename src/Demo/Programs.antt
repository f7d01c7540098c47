-- ===== src/Demo/Programs.antt =====
-- The pairs of threads of the four programs: one each of three of them, and the two of
-- thread_test_kmon_unot_2regions.c. Their times, their steps, and what the byte holds at the start.
-- The barrier before the loops of the last two is left out here, as it only delays them; Demo/Regions
-- has it.
use htsynch.Base.{ℕ, ◌<◌, ◌≡◌, ◌≢◌, refl, arith, true, List, [], ◌∷◌}
use htsynch.Monitor.Defs
use htsynch.Monitor.Defs.{original_val, notified_val}
use htsynch.Demo.Threads.{
  Program, Stage, placing, looping, calling, reporting, finished, Demo, Event, sleeper_runs,
  notifier_runs, interrupted, sleeper_at, notifier_at, happens,
}
use htsynch.Demo.KmonKnot
use htsynch.Demo.UmonUnot
use htsynch.Demo.KmonUnot
use htsynch.Demo.TwoRegions

pub data Pair : Type 0 where
  kmon_knot umon_unot kmon_unot pack0 pack1 : Pair

-- A region's times: the sleeper goes by the first, the notifier by the second.
abbrev pub program : Pair → Program
program kmon_knot = KmonKnot.times
program umon_unot = UmonUnot.times
program kmon_unot = KmonUnot.times
program pack0 = record {
  sleep_time = TwoRegions.sleep_time_pack0;
  notify_time = TwoRegions.notify_time_pack0;
  end_time = TwoRegions.end_time;
  reports = true;
}
program pack1 = record {
  sleep_time = TwoRegions.sleep_time_pack1;
  notify_time = TwoRegions.notify_time_pack1;
  end_time = TwoRegions.end_time;
  reports = true;
}

abbrev pub sleeper : Pair → Demo → Demo
sleeper kmon_knot d = KmonKnot.sleeper d
sleeper umon_unot d = UmonUnot.sleeper d
sleeper kmon_unot d = KmonUnot.sleeper d
sleeper pack0 d = sleeper_at (TwoRegions.times TwoRegions.ta0) d.sleeper.stage d
sleeper pack1 d = sleeper_at (TwoRegions.times TwoRegions.ta2) d.sleeper.stage d

abbrev pub notifier : Pair → Demo → Demo
notifier kmon_knot d = KmonKnot.notifier d
notifier umon_unot d = UmonUnot.notifier d
notifier kmon_unot d = KmonUnot.notifier d
notifier pack0 d = notifier_at (TwoRegions.times TwoRegions.ta1) d.notifier.stage d
notifier pack1 d = notifier_at (TwoRegions.times TwoRegions.ta3) d.notifier.stage d

-- A step of a thread, or an interrupt of the sleeper's processor.
abbrev pub turn : Pair → Event → Demo → Demo
turn k sleeper_runs d = sleeper k d
turn k notifier_runs d = notifier k d
turn k interrupted d = record d { call = Defs.interrupt d.call }

-- The state after some events, the first one first.
abbrev pub run : Pair → List Event → Demo → Demo
run k [] d = d
run k (e ∷ es) d = run k es (turn k e d)

-- Only the sleeper goes by the time to sleep, and only the notifier by the time to notify.
sleeper_at-times :
    (s m m' : ℕ) (e : ℕ) (st : Stage) (d : Demo)
    → sleeper_at (record { sleep_time = s; notify_time = m; end_time = e; reports = true }) st d
      ≡ sleeper_at (record { sleep_time = s; notify_time = m'; end_time = e; reports = true }) st d
sleeper_at-times s m m' e placing d = refl
sleeper_at-times s m m' e looping d = refl
sleeper_at-times s m m' e calling d = refl
sleeper_at-times s m m' e reporting d = refl
sleeper_at-times s m m' e finished d = refl

notifier_at-times :
    (s s' m : ℕ) (e : ℕ) (st : Stage) (d : Demo)
    → notifier_at (record { sleep_time = s; notify_time = m; end_time = e; reports = true }) st d
      ≡ notifier_at (record { sleep_time = s'; notify_time = m; end_time = e; reports = true }) st d
notifier_at-times s s' m e placing d = refl
notifier_at-times s s' m e looping d = refl
notifier_at-times s s' m e calling d = refl
notifier_at-times s s' m e reporting d = refl
notifier_at-times s s' m e finished d = refl

pub turn-happens : (k : Pair) (e : Event) (d : Demo) → turn k e d ≡ happens (program k) e d
unfolding happens
turn-happens pack0 sleeper_runs d = sleeper_at-times 5 0 15 20 d.sleeper.stage d
turn-happens pack1 sleeper_runs d = sleeper_at-times 8 0 13 20 d.sleeper.stage d
turn-happens pack0 notifier_runs d = notifier_at-times 0 5 15 20 d.notifier.stage d
turn-happens pack1 notifier_runs d = notifier_at-times 0 8 13 20 d.notifier.stage d
turn-happens kmon_knot sleeper_runs d = refl
turn-happens umon_unot sleeper_runs d = refl
turn-happens kmon_unot sleeper_runs d = refl
turn-happens kmon_knot notifier_runs d = refl
turn-happens umon_unot notifier_runs d = refl
turn-happens kmon_unot notifier_runs d = refl
turn-happens k interrupted d = refl

-- thread_test_umon_unot.c leaves in the byte what `malloc` gives; `sys_mwmon_kernel_init` and the
-- device's open store the original value.
abbrev pub first_byte : Pair → ℕ → ℕ
first_byte umon_unot b = b
first_byte _ b = original_val

pub program_times :
    (k : Pair)
    → ((program k).sleep_time < (program k).end_time)
      × ((program k).notify_time < (program k).end_time)
program_times kmon_knot = omega arith
program_times umon_unot = omega arith
program_times kmon_unot = omega arith
program_times pack0 = omega arith
program_times pack1 = omega arith

pub first_byte-ne : (k : Pair) (b : ℕ) → b ≢ notified_val → first_byte k b ≢ notified_val
first_byte-ne umon_unot b ne = ne
first_byte-ne _ b ne = λ e. absurd (omega (arith, e))
