-- ===== src/Demo/Invariant.antt =====
-- What holds between two events of a program.
use htsynch.Base.{
  ℕ, ◌≤◌, ◌<◌, ◌≡◌, ◌≢◌, ◌⊎◌, arith, ltb, if◌then◌else◌, Bool, true, Option, none, some,
}
use htsynch.Monitor.Defs.{
  Pc, arm, halt, reset, done, Sleeper, sys_mwmon_sleep, notify, interrupt, original_val,
  notified_val,
}
use htsynch.Demo.Threads.{
  Program, Report, at_original, Stage, placing, looping, calling, reporting, finished, Side, Demo,
  sleeper_at, notifier_at,
}

-- The byte before the call has ended, with the notifier at `j`, from `b` at the start.
abbrev pub expected : ℕ → ℕ → ℕ → ℕ
expected m b j = if ltb m j then notified_val else b

abbrev CallAt : ℕ → ℕ → ℕ → Pc → Sleeper → Type 0
CallAt m b j halt c = (c.byte ≡ expected m b j) × (c.armed ≡ true → c.byte ≢ notified_val)
CallAt m b j reset c = (c.byte ≡ notified_val) × (m < j)
CallAt m b j done c = (c.byte ≡ original_val) × (m < j)
CallAt m b j _ c = c.byte ≡ expected m b j

-- The call is over: the notifier has stored, and the original value stands again.
abbrev Over : ℕ → ℕ → Sleeper → Type 0
Over m j c = (m < j) × (c.byte ≡ original_val)

abbrev GoodAt : Program → ℕ → Stage → Demo → Type 0
GoodAt p b placing d = (d.sleeper.i ≡ 0) × (d.call.byte ≡ expected p.notify_time b d.notifier.i)
GoodAt p b looping d =
    ((d.sleeper.i ≤ p.sleep_time) × (d.call.byte ≡ expected p.notify_time b d.notifier.i))
    ⊎ ((p.sleep_time < d.sleeper.i) × Over p.notify_time d.notifier.i d.call)
GoodAt p b calling d =
    (d.sleeper.i ≡ p.sleep_time) × CallAt p.notify_time b d.notifier.i d.call.pc d.call
GoodAt p b reporting d = Over p.notify_time d.notifier.i d.call × (p.reports ≡ true)
GoodAt p b finished d =
    Over p.notify_time d.notifier.i d.call
    × (d.sleeper.report ≡ (if p.reports then some at_original else none))

-- The sleeper has reported nothing before it has finished.
abbrev Silent : Stage → Side → Type 0
Silent finished t = Unit
Silent _ t = t.report ≡ none

pub record Good (p : Program) (b : ℕ) (d : Demo) : Type 0 where
  pub stages : GoodAt p b d.sleeper.stage d
  pub silent : Silent d.sleeper.stage d.sleeper
  pub notifier_past : d.notifier.stage ≡ finished → p.end_time ≤ d.notifier.i
  pub notifier_reporting : d.notifier.stage ≡ reporting → p.end_time ≤ d.notifier.i

module _ (p : Program) (b : ℕ) (usual : b ≢ notified_val) (s-lt : p.sleep_time < p.end_time)
    (m-lt : p.notify_time < p.end_time) (i j byte : ℕ) (armed : Bool)
    (report seen : Option Report) where
  abbrev at : Stage → Pc → Stage → Demo
  at st pc nt = record {
    sleeper = record { stage = st; i = i; report = report };
    call = record { pc = pc; armed = armed; byte = byte };
    notifier = record { stage = nt; i = j; report = seen };
  }

  pub sleeper-Good :
      (st : Stage) (pc : Pc) (nt : Stage)
      → Good p b (at st pc nt)
      → Good p b (sleeper_at p st (at st pc nt))
  unfolding sys_mwmon_sleep
  sleeper-Good calling arm nt g = ground arith
  sleeper-Good calling pc nt g = ground arith
  sleeper-Good st pc nt g = ground arith

  pub notifier-Good :
      (st : Stage) (pc : Pc) (nt : Stage)
      → Good p b (at st pc nt)
      → Good p b (notifier_at p nt (at st pc nt))
  unfolding notify
  notifier-Good calling arm looping g = ground arith
  notifier-Good calling pc looping g = ground arith
  notifier-Good st pc nt g = ground arith

  pub interrupt-Good :
      (st : Stage) (pc : Pc) (nt : Stage)
      → Good p b (at st pc nt)
      → Good p b (record (at st pc nt) { call = interrupt (at st pc nt).call })
  unfolding interrupt
  interrupt-Good calling arm nt g = ground arith
  interrupt-Good calling pc nt g = ground arith
  interrupt-Good st pc nt g = ground arith
