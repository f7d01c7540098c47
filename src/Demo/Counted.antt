-- ===== src/Demo/Counted.antt =====
-- What the two threads of Demo/Counting can rely on.
use htsynch.Base.{ℕ, ◌+◌, ◌≤◌, ◌<◌, ◌≡◌, ◌≢◌, refl, arith, Bool, true, false, List, [], ◌∷◌}
use htsynch.Monitor.Counter
use htsynch.Monitor.Counter.{Waiter, sys_mwmon_mmap_spin_while_greater, store_counter, interrupt}
use htsynch.Demo.Counting.{
  Stage, looping, calling, finished, Notifier, starting, counting, ended, Counting, first_count,
  last_count, Event, sleeper_runs, notifier_runs, interrupted, sleeper_at, notifier_at, happens,
  after, begin,
}

-- The call has found the counter high enough.
abbrev passed : Counter.Pc → Bool
passed Counter.Pc.reset = true
passed Counter.Pc.done = true
passed _ = false

abbrev is_calling : Stage → Bool
is_calling calling = true
is_calling _ = false

-- What holds from the start on, whatever the counter holds then.
pub record Sound (d : Counting) : Type 0 where
  pub small : d.notifier ≢ starting → d.call.counter ≤ last_count
  pub over : d.notifier ≡ ended → d.call.counter ≡ last_count
  pub low : first_count ≤ d.i
  pub high : d.i ≤ last_count
  pub busy : d.stage ≡ calling → d.i < last_count
  pub last : d.stage ≡ finished → d.i ≡ last_count

-- What holds besides if the notifier has set the counter before the sleeper begins.
pub record Good (d : Counting) : Type 0 where
  pub set : d.notifier ≢ starting
  pub counted : first_count < d.i → d.i ≤ d.call.counter + 1
  pub enough : is_calling d.stage ≡ true → passed d.call.pc ≡ true → d.i ≤ d.call.counter

module _ (i area byte counter : ℕ) (armed : Bool) where
  abbrev pub at : Stage → Counter.Pc → Notifier → Counting
  at st pc nt = record {
    stage = st;
    i = i;
    notifier = nt;
    call = record { pc = pc; armed = armed; area = area; byte = byte; counter = counter };
  }

  sleeper-Sound :
      (st : Stage) (pc : Counter.Pc) (nt : Notifier)
      → Sound (at st pc nt)
      → Sound (sleeper_at st (at st pc nt))
  unfolding sys_mwmon_mmap_spin_while_greater
  sleeper-Sound looping pc nt h = ground arith
  sleeper-Sound calling pc nt h = ground arith
  sleeper-Sound finished pc nt h = h

  notifier-Sound :
      (st : Stage) (pc : Counter.Pc) (nt : Notifier)
      → Sound (at st pc nt)
      → Sound (notifier_at nt (at st pc nt))
  unfolding store_counter
  notifier-Sound st pc starting h = ground arith
  notifier-Sound st pc counting h = ground arith
  notifier-Sound st pc ended h = h

  interrupt-Sound :
      (st : Stage) (pc : Counter.Pc) (nt : Notifier)
      → Sound (at st pc nt)
      → Sound (record (at st pc nt) { call = interrupt (at st pc nt).call })
  unfolding interrupt
  interrupt-Sound st pc nt h = ground arith

  sleeper-Good :
      (st : Stage) (pc : Counter.Pc) (nt : Notifier)
      → Sound (at st pc nt)
      → Good (at st pc nt)
      → Good (sleeper_at st (at st pc nt))
  unfolding sys_mwmon_mmap_spin_while_greater
  sleeper-Good looping pc nt h g = ground arith
  sleeper-Good calling pc nt h g = ground arith
  sleeper-Good finished pc nt h g = g

  notifier-Good :
      (st : Stage) (pc : Counter.Pc) (nt : Notifier)
      → Sound (at st pc nt)
      → Good (at st pc nt)
      → Good (notifier_at nt (at st pc nt))
  unfolding store_counter
  notifier-Good st pc starting h g = absurd (g.set refl)
  notifier-Good st pc counting h g = ground arith
  notifier-Good st pc ended h g = g

  interrupt-Good :
      (st : Stage) (pc : Counter.Pc) (nt : Notifier)
      → Good (at st pc nt)
      → Good (record (at st pc nt) { call = interrupt (at st pc nt).call })
  unfolding interrupt
  interrupt-Good st pc nt g = ground arith

happens-Sound : (e : Event) (d : Counting) → Sound d → Sound (happens e d)
unfolding happens
happens-Sound sleeper_runs d h =
    let w = d.call in sleeper-Sound d.i w.area w.byte w.counter w.armed d.stage w.pc d.notifier h
happens-Sound notifier_runs d h =
    let w = d.call in notifier-Sound d.i w.area w.byte w.counter w.armed d.stage w.pc d.notifier h
happens-Sound interrupted d h =
    let w = d.call in interrupt-Sound d.i w.area w.byte w.counter w.armed d.stage w.pc d.notifier h

happens-Good : (e : Event) (d : Counting) → Sound d → Good d → Good (happens e d)
unfolding happens
happens-Good sleeper_runs d h g =
    let w = d.call in sleeper-Good d.i w.area w.byte w.counter w.armed d.stage w.pc d.notifier h g
happens-Good notifier_runs d h g =
    let w = d.call in notifier-Good d.i w.area w.byte w.counter w.armed d.stage w.pc d.notifier h g
happens-Good interrupted d h g =
    let w = d.call in interrupt-Good d.i w.area w.byte w.counter w.armed d.stage w.pc d.notifier g

pub after-Sound : (es : List Event) (d : Counting) → Sound d → Sound (after es d)
after-Sound [] d h = h
after-Sound (e ∷ es) d h = after-Sound es (happens e d) (happens-Sound e d h)

after-Good : (es : List Event) (d : Counting) → Sound d → Good d → Good (after es d)
after-Good [] d h g = g
after-Good (e ∷ es) d h g = after-Good es (happens e d) (happens-Sound e d h) (happens-Good e d h g)

pub begin-Sound : (area byte c : ℕ) → Sound (begin area byte c)
begin-Sound area byte c = ground arith

-- Behind the barrier, the notifier having set the counter first.
abbrev pub set_up : ℕ → ℕ → ℕ → Counting
set_up area byte c = happens notifier_runs (begin area byte c)

set_up-Good : (area byte c : ℕ) → Good (set_up area byte c)
unfolding happens store_counter
set_up-Good area byte c = ground arith

-- If the notifier has set the counter to 0 before the sleeper begins, then whatever follows, a
-- sleeper that has returned from the call for a number finds that the notifier has counted that far,
-- and the counter is not beyond 20.
pub counted_lem :
    (area byte c : ℕ) (es : List Event)
    → let d = after es (set_up area byte c) in
      first_count < d.i → (d.i ≤ d.call.counter + 1) × (d.call.counter ≤ last_count)
counted_lem area byte c es passed_first =
    let s = set_up area byte c in
    let h = happens-Sound notifier_runs (begin area byte c) (begin-Sound area byte c) in
    let g = after-Good es s h (set_up-Good area byte c) in
    (g.counted passed_first, (after-Sound es s h).small g.set)
