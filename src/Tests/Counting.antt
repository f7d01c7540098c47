-- ===== src/Tests/Counting.antt =====
-- Runs of the sleeper and the notifier that count in the shared page.
use htsynch.Base.{ℕ, zero, suc, ◌+◌, ◌<◌, ◌≤◌, ◌≡◌, refl, arith, List, [], ◌∷◌, ◌++◌}
use htsynch.Monitor.Counter.{sys_mwmon_mmap_spin_while_greater, store_counter, interrupt}
use htsynch.Demo.Counting.{
  Stage, Notifier, Event, sleeper_runs, notifier_runs, interrupted, happens, after, begin,
  first_count, last_count,
}
use htsynch.Demo.Counted.{set_up, counted_lem}
use htsynch.Demo.CountingProgress.{Progresses, rank, sleeper_goes_on}

abbrev times : ℕ → Event → List Event
times zero e = []
times (suc n) e = e ∷ times n e

-- The sleeper halts for 10 before the notifier sets a counter left at 3, and the notifier counts to
-- the end.
abbrev counting : List Event
counting = times 4 sleeper_runs ++ times 22 notifier_runs

sleeper_goes_on_example :
    let d = after counting (begin 4096 0 3) in
    Progresses d × ((e : Event) → rank (happens e d) ≤ rank d) × (rank d ≤ 88)
unfolding happens store_counter sys_mwmon_mmap_spin_while_greater interrupt
sleeper_goes_on_example = sleeper_goes_on 4096 0 3 counting refl

-- The notifier counts to 12, and the sleeper returns from the call for 10.
abbrev passing : List Event
passing = times 12 notifier_runs ++ times 4 sleeper_runs

passing_first : first_count < (after passing (set_up 4096 0 3)).i
unfolding happens store_counter sys_mwmon_mmap_spin_while_greater
passing_first = omega arith

counted_lem_example :
    let d = after passing (set_up 4096 0 3) in
    (d.i ≤ d.call.counter + 1) × (d.call.counter ≤ last_count)
counted_lem_example = counted_lem 4096 0 3 passing passing_first

-- After the counting the sleeper needs one interrupt, as no store woke it.
still_halted :
    (after (times 60 sleeper_runs) (after counting (begin 4096 0 3))).stage ≡ Stage.calling
unfolding happens store_counter sys_mwmon_mmap_spin_while_greater interrupt
still_halted = refl

interrupted_finishes :
    (after (interrupted ∷ times 60 sleeper_runs) (after counting (begin 4096 0 3))).stage
    ≡ Stage.finished
unfolding happens store_counter sys_mwmon_mmap_spin_while_greater interrupt
interrupted_finishes = refl

-- With the counter at 20, as an earlier run has left it, the sleeper ends before the notifier has
-- set it.
stale_passes :
    let d = after (times 60 sleeper_runs) (begin 4096 0 20) in
    (d.stage ≡ Stage.finished) × (d.notifier ≡ Notifier.starting)
unfolding happens store_counter sys_mwmon_mmap_spin_while_greater interrupt
stale_passes = (refl, refl)
