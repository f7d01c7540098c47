-- ===== src/Tests/Trials.antt =====
-- Runs of the programs of mwait_barrier/ that try the barriers and the notifications.
use htsynch.Base.{
  ℕ, zero, suc, ◌+◌, ◌≤◌, ◌≡◌, ◌≢◌, refl, arith, inl, Bool, true, List, [], ◌∷◌, ◌++◌, some,
  ℕ_discrete,
}
use htsynch.MwaitBarrier.Defs.{mwait_barrier, swap}
use htsynch.Trials.Pair
use htsynch.Trials.Pair.{Stage, heavy_runs, light_runs, disturbed, Event, turn}
use htsynch.Trials.Mwait.{mwait_rounds, mwait_Lively}
use htsynch.Trials.Sense.{sense_rounds}
use htsynch.Trials.SpinHalt.{halting_rounds}
use htsynch.SenseBarrier.Defs.{spin_barrier_lsense}
use htsynch.Trials.Lockstep.{lockstep, no_hang}
use htsynch.Trials.TwoPackages.{
  Turn, thread0, thread1, thread2, thread3, first_disturbed, begin_packages, run_packages,
  run_packages-run, of_first, of_second,
}
use htsynch.Primitives.Rows
use htsynch.Primitives.Rows.{finished, rows, syncing_rows}
use htsynch.Primitives.Builds.{spinpause_signal, mwmon_signal, set_notified}
use htsynch.Primitives.Lost.{sleeps-le-notifications, lost_notifications}

abbrev times {ℓ} : {A : Type ℓ} → ℕ → A → List A
times zero e = []
times (suc n) e = e ∷ times n e

-- The heavy thread arrives and sleeps, is interrupted, and the light one arrives; two rounds.
abbrev events : List (Event Bool)
events = times 12 heavy_runs ++ (disturbed true ∷ times 4 heavy_runs) ++ times 12 light_runs

lockstep_example :
    let t = Pair.run mwait_rounds 2 events (Pair.begin mwait_rounds 2) in
    (t.heavy.i ≤ t.light.work)
    × (t.light.i ≤ t.heavy.work)
    × (t.heavy.work ≤ t.light.work + 1)
    × (t.light.work ≤ t.heavy.work + 1)
    × (t.heavy.work ≤ 2)
    × (t.light.work ≤ 2)
lockstep_example = lockstep mwait_rounds 2 events

-- The build SPINHALT with a driver that interrupts every processor: the first round of both, in which
-- the heavy thread halts and is woken.
abbrev halt_events : List (Event Bool)
halt_events = times 9 heavy_runs ++ times 9 light_runs ++ times 4 heavy_runs

spinhalt_round :
    let R = halting_rounds (λ i j. true) in
    let t = Pair.run R 2 halt_events (Pair.begin R 2) in (t.heavy.i ≡ 1) × (t.light.i ≡ 1)
unfolding Pair.run Pair.turn spin_barrier_lsense ℕ_discrete
spinhalt_round = (refl, refl)

-- The build SPINPAUSE: both threads find the count full, the heavy one begins its next round, and the
-- late reset of the light one loses its arrival. Then neither gets on.
abbrev losing : List (Event ⊥)
losing =
    times 4 heavy_runs
    ++ times 4 light_runs
    ++ (heavy_runs ∷ light_runs ∷ times 6 heavy_runs)
    ++ times 2 light_runs
    ++ heavy_runs ∷ times 5 light_runs

abbrev both : ℕ → List (Event ⊥)
both zero = []
both (suc n) = heavy_runs ∷ light_runs ∷ both n

sense_stuck :
    let t = Pair.run sense_rounds 3 (losing ++ both 30) (Pair.begin sense_rounds 3) in
    (t.heavy.stage ≡ Stage.calling)
    × (t.heavy.i ≡ 1)
    × (t.light.stage ≡ Stage.calling)
    × (t.light.i ≡ 1)
unfolding Pair.run Pair.turn spin_barrier_lsense ℕ_discrete
sense_stuck = (refl, refl, refl, refl)

-- One round of both, to the end.
abbrev round : List (Event Bool)
round = times 10 heavy_runs ++ times 12 light_runs ++ times 12 heavy_runs ++ times 3 light_runs

heavy-finished :
    (Pair.run mwait_rounds 1 round (Pair.begin mwait_rounds 1)).heavy.stage ≡ Stage.finished
unfolding Pair.run Pair.turn mwait_barrier swap
heavy-finished = refl

light-finished :
    (Pair.run mwait_rounds 1 round (Pair.begin mwait_rounds 1)).light.stage ≡ Stage.finished
unfolding Pair.run Pair.turn mwait_barrier swap
light-finished = refl

no_hang_example :
    let t = Pair.run mwait_rounds 1 round (Pair.begin mwait_rounds 1) in
    (t.heavy.stage ≡ Stage.finished)
    × (t.light.stage ≡ Stage.finished)
    × (t.heavy.work ≡ 1)
    × (t.light.work ≡ 1)
no_hang_example =
    no_hang mwait_rounds mwait_Lively 1 round (inl heavy-finished) (inl light-finished)

-- The heavy thread passes all rows before the light one begins, which then sleeps once.
abbrev all_rows : List Rows.Event
all_rows = times 515 Rows.heavy_runs

all_rows-finished :
    (Rows.run spinpause_signal 256 all_rows (Rows.begin spinpause_signal 256)).heavy.stage
    ≡ finished
unfolding Rows.run Rows.turn set_notified
all_rows-finished = refl

few_sleeps :
    (Rows.run spinpause_signal 256 all_rows (Rows.begin spinpause_signal 256)).light.syncs + 2
    ≤ syncing_rows 256 rows
unfolding Rows.run Rows.turn set_notified
few_sleeps = omega arith

lost_notifications_example :
    let t = Rows.run spinpause_signal 256 all_rows (Rows.begin spinpause_signal 256) in
    (Rows.run spinpause_signal 256 (times 5 Rows.light_runs) t).light.stage ≢ finished
lost_notifications_example =
    lost_notifications spinpause_signal 256 all_rows (times 5 Rows.light_runs) all_rows-finished
      few_sleeps

sleeps-le-notifications_example :
    let t = Rows.run mwmon_signal 200 all_rows (Rows.begin mwmon_signal 200) in
    (t.light.syncs ≤ t.heavy.syncs) × (t.heavy.syncs ≡ syncing_rows 200 t.heavy.i)
sleeps-le-notifications_example = sleeps-le-notifications mwmon_signal 200 all_rows

-- The heavy threads of both packages and one light thread begin.
abbrev turns : List (Turn Bool)
turns = thread0 ∷ thread2 ∷ thread1 ∷ first_disturbed true ∷ thread3 ∷ thread2 ∷ thread0 ∷ []

four_threads :
    run_packages mwait_rounds 3 turns (begin_packages mwait_rounds 3)
    ≡ some (record {
      first = Pair.run mwait_rounds 3 (of_first turns) (Pair.begin mwait_rounds 3);
      second = Pair.run mwait_rounds 3 (of_second turns) (Pair.begin mwait_rounds 3);
    })
four_threads =
    run_packages-run mwait_rounds 3 turns (Pair.begin mwait_rounds 3) (Pair.begin mwait_rounds 3)
