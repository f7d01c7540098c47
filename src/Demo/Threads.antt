-- ===== src/Demo/Threads.antt =====
-- What the thread functions `sleeper` and `notifier` of the programs have in common, which differ in
-- their times, in whether they report the byte at the end, and in the system call; each program's
-- own are in the modules KmonKnot, UmonUnot, KmonUnot and TwoRegions. What they print and how long
-- `sleep` takes is left out: the threads and the processor interleave in any order.
use htsynch.Base.{ℕ, ◌+◌, ◌==◌, ltb, if◌then◌else◌, Bool, true, false, Option, none, some}
use htsynch.Monitor.Defs
use htsynch.Monitor.Defs.{Sleeper, sys_mwmon_sleep, original_val, notified_val}

-- SLEEP_TIME, NOTIFY_TIME and END_TIME, and whether the threads report.
pub record Program : Type 0 where
  pub sleep_time : ℕ
  pub notify_time : ℕ
  pub end_time : ℕ
  pub reports : Bool

-- What a thread reports of the byte.
pub data Report : Type 0 where
  at_notified at_original illegal : Report

-- The `switch` on the byte.
abbrev pub report_of : ℕ → Report
report_of b =
    if b == notified_val then at_notified else if b == original_val then at_original else illegal

-- Where a thread stands: `placing` is before the calls that bind it to a processor, `looping` before
-- the test of its `for`, `calling` in the system call.
pub data Stage : Type 0 where
  placing looping calling reporting finished : Stage

pub record Side : Type 0 where
  pub stage : Stage
  pub i : ℕ
  pub report : Option Report

-- `call` is the sleeper's processor and the byte that both threads share.
pub record Demo : Type 0 where
  pub sleeper : Side
  pub call : Sleeper
  pub notifier : Side

abbrev is_done : Defs.Pc → Bool
is_done Defs.Pc.done = true
is_done _ = false

abbrev goto : Stage → Side → Side
goto stage t = record t { stage = stage }

abbrev pub sleeper_at : Program → Stage → Demo → Demo
sleeper_at p Stage.placing d = record d { sleeper = goto Stage.looping d.sleeper }
sleeper_at p Stage.looping d =
    if ltb d.sleeper.i p.end_time
    then if d.sleeper.i == p.sleep_time
      then record d {
        sleeper = goto Stage.calling d.sleeper;
        call = record d.call { pc = Defs.Pc.arm };
      }
      else record d { sleeper = record d.sleeper { i = d.sleeper.i + 1 } }
    else record d {
      sleeper = goto (if p.reports then Stage.reporting else Stage.finished) d.sleeper;
    }
sleeper_at p Stage.calling d =
    if is_done d.call.pc
    then record d { sleeper = record d.sleeper { stage = Stage.looping; i = d.sleeper.i + 1 } }
    else record d { call = sys_mwmon_sleep d.call }
sleeper_at p Stage.reporting d = record d {
  sleeper = record d.sleeper { stage = Stage.finished; report = some (report_of d.call.byte) };
}
sleeper_at p Stage.finished d = d

-- The notifier stores the notified value, and that disarms the sleeper's processor.
abbrev pub notifier_at : Program → Stage → Demo → Demo
notifier_at p Stage.placing d = record d { notifier = goto Stage.looping d.notifier }
notifier_at p Stage.looping d =
    if ltb d.notifier.i p.end_time
    then record d {
      notifier = record d.notifier { i = d.notifier.i + 1 };
      call = if d.notifier.i == p.notify_time then Defs.notify d.call else d.call;
    }
    else record d {
      notifier = goto (if p.reports then Stage.reporting else Stage.finished) d.notifier;
    }
notifier_at p Stage.reporting d = record d {
  notifier = record d.notifier { stage = Stage.finished; report = some (report_of d.call.byte) };
}
notifier_at p _ d = d

abbrev fresh : Side
fresh = record { stage = Stage.placing; i = 0; report = none }

-- The threads are created with `b` in the byte.
abbrev pub begin : ℕ → Demo
begin b = record {
  sleeper = fresh;
  call = record { pc = Defs.Pc.done; armed = false; byte = b };
  notifier = fresh;
}

-- A step of a thread, or an interrupt of the sleeper's processor.
pub data Event : Type 0 where
  sleeper_runs notifier_runs interrupted : Event

unfoldable pub happens : Program → Event → Demo → Demo
happens p sleeper_runs d = sleeper_at p d.sleeper.stage d
happens p notifier_runs d = notifier_at p d.notifier.stage d
happens p interrupted d = record d { call = Defs.interrupt d.call }
