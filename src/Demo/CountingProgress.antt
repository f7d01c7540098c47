-- ===== src/Demo/CountingProgress.antt =====
-- The sleeper of Demo/Counting once the notifier has counted to the end.
use htsynch.Base.{ℕ, ◌+◌, ◌-◌, ◌*◌, ◌≤◌, ◌<◌, ◌≡◌, ◌⊎◌, inl, refl, arith, Bool, true, false, List}
use htsynch.Monitor.Counter
use htsynch.Monitor.Counter.{sys_mwmon_mmap_spin_while_greater, store_counter, interrupt}
use htsynch.Demo.Counting.{
  Stage, looping, calling, finished, Notifier, ended, Counting, last_count, Event, sleeper_runs,
  notifier_runs, interrupted, happens, after, begin,
}
use htsynch.Demo.Counted.{Sound, at, after-Sound, begin-Sound}

-- How far the sleeper is from its end when the counter has reached its last value.
abbrev call_rank : Counter.Pc → Bool → ℕ
call_rank Counter.Pc.done armed = 1
call_rank Counter.Pc.reset armed = 2
call_rank Counter.Pc.test armed = 3
call_rank Counter.Pc.halt false = 4
call_rank Counter.Pc.halt true = 5
call_rank Counter.Pc.arm armed = 6

abbrev pub rank : Counting → ℕ
rank d = elim d.stage [
  | Stage.looping ↦ (last_count - d.i) * 8 + 1
  | Stage.calling ↦ (last_count - (d.i + 1)) * 8 + 1 + call_rank d.call.pc d.call.armed
  | Stage.finished ↦ 0
]

-- In MWAIT with the processor armed.
abbrev pub IsHalted : Counting → Type 0
IsHalted d = (d.stage ≡ calling) × (d.call.pc ≡ Counter.Pc.halt) × (d.call.armed ≡ true)

abbrev pub Progresses : Counting → Type 0
Progresses d =
    (d.stage ≡ finished)
    ⊎ (rank (happens sleeper_runs d) < rank d)
    ⊎ (IsHalted d × (rank (happens interrupted d) < rank d))

goes_on_at :
    (i area byte counter : ℕ) (armed : Bool) (st : Stage) (pc : Counter.Pc) (nt : Notifier)
    → let d = at i area byte counter armed st pc nt in Sound d → nt ≡ ended → Progresses d
unfolding happens sys_mwmon_mmap_spin_while_greater interrupt
goes_on_at i area byte counter armed looping pc nt g e = ground arith
goes_on_at i area byte counter armed finished pc nt g e = inl refl
goes_on_at i area byte counter true calling Counter.Pc.halt nt g e = ground arith
goes_on_at i area byte counter armed calling pc nt g e = ground arith

never_back_at :
    (i area byte counter : ℕ) (armed : Bool) (st : Stage) (pc : Counter.Pc) (nt : Notifier)
    (e : Event)
    → let d = at i area byte counter armed st pc nt in
      Sound d → nt ≡ ended → rank (happens e d) ≤ rank d
unfolding happens sys_mwmon_mmap_spin_while_greater interrupt store_counter
never_back_at i area byte counter armed st pc nt sleeper_runs g e = ground arith
never_back_at i area byte counter armed st pc nt notifier_runs g e = ground arith
never_back_at i area byte counter armed st pc nt interrupted g e = ground arith

rank-le : (d : Counting) → Sound d → rank d ≤ 88
rank-le d g = ground arith

-- Whatever the counter holds at first, once the notifier has counted to the end the sleeper is on its
-- way to its end, by a rank of at most 88 that no event raises: as long as it has not finished, its
-- next step lowers the rank, or it is halted and the next interrupt lowers it.
pub sleeper_goes_on :
    (area byte c : ℕ) (es : List Event)
    → let d = after es (begin area byte c) in
      d.notifier ≡ ended
      → Progresses d × ((e : Event) → rank (happens e d) ≤ rank d) × (rank d ≤ 88)
sleeper_goes_on area byte c es over =
    let d = after es (begin area byte c) in
    let h = after-Sound es (begin area byte c) (begin-Sound area byte c) in
    let w = d.call in
    (
      goes_on_at d.i w.area w.byte w.counter w.armed d.stage w.pc d.notifier h over,
      λ e. never_back_at d.i w.area w.byte w.counter w.armed d.stage w.pc d.notifier e h over,
      rank-le d h,
    )
