-- ===== src/Tests/Demos.antt =====
-- Runs of the programs that try the sleeping system calls, and of the calls' memory.
use htsynch.Base.{
  ℕ, zero, suc, ◌+◌, ◌/◌, ◌%◌, ◌<◌, ◌≤◌, ◌≡◌, ◌↔◌, ◌==◌, if◌then◌else◌, refl, List, [], ◌∷◌, ◌++◌,
  arith, none, some, ℕ_discrete,
}
use htsynch.Monitor.Defs.{original_val, monitored_mem_bytes, sys_mwmon_sleep, interrupt, notify}
use htsynch.Monitor.Kernel.{
  Kernel, sys_mwmon_kernel_init, sys_mwmon_kernel_init_lem, sys_mwmon_kernel_finalize,
}
use htsynch.KmemMapper.Driver.{ok}
use htsynch.Demo.Threads.{
  at_original, finished, Event, sleeper_runs, notifier_runs, interrupted, begin,
}
use htsynch.LockedBarrier.Defs.{code}
use htsynch.Demo.TwoRegions.{Regions, begin_regions}
use htsynch.Demo.Programs.{kmon_unot, program, run, first_byte}
use htsynch.Demo.Laws.{sleeper_finished, sleeper_finishes}
use htsynch.Demo.Regions.{
  Turn, thread0, thread1, thread2, thread3, interrupted0, run_all, Unbegun, begin_together,
}

abbrev times {ℓ} : {A : Type ℓ} → ℕ → A → List A
times zero e = []
times (suc n) e = e ∷ times n e

-- The sleeper sleeps, an interrupt comes, and the notifier stores.
abbrev notifying : List Event
notifying = times 10 sleeper_runs ++ (interrupted ∷ times 2 sleeper_runs) ++ times 12 notifier_runs

-- Then the sleeper runs to its end.
abbrev whole : List Event
whole = notifying ++ times 25 sleeper_runs

whole-finished : (run kmon_unot whole (begin (first_byte kmon_unot 0))).sleeper.stage ≡ finished
unfolding sys_mwmon_sleep interrupt notify
whole-finished = refl

sleeper_finished_example :
    let d = run kmon_unot whole (begin (first_byte kmon_unot 0)) in
    ((program kmon_unot).notify_time < d.notifier.i)
    × (d.call.byte ≡ original_val)
    × (d.sleeper.report ≡ (if (program kmon_unot).reports then some at_original else none))
sleeper_finished_example =
    sleeper_finished kmon_unot 0 whole (λ e. absurd (omega (arith, e))) whole-finished

notifying_past :
    (program kmon_unot).notify_time
    < (run kmon_unot notifying (begin (first_byte kmon_unot 0))).notifier.i
unfolding sys_mwmon_sleep interrupt notify
notifying_past = omega arith

-- The sleeper runs again, with steps of the notifier and an interrupt in between.
abbrev ending : List Event
ending = times 15 sleeper_runs ++ (interrupted ∷ times 3 notifier_runs) ++ times 14 sleeper_runs

sleeper_finishes_example :
    (run kmon_unot ending (run kmon_unot notifying (begin (first_byte kmon_unot 0)))).sleeper.stage
    ≡ finished
sleeper_finishes_example =
    sleeper_finishes kmon_unot 0 notifying ending (λ e. absurd (omega (arith, e))) notifying_past
      (omega arith)

-- Three threads come to the barrier and wait there; the fourth has only been bound to its processor,
-- and one processor is interrupted.
abbrev turns : List Turn
turns =
    times 9 thread0 ++ times 9 thread1 ++ times 9 thread2 ++ thread3 ∷ thread3 ∷ interrupted0 ∷ []

abbrev waiting_regions : Regions
waiting_regions = elim (run_all turns begin_regions) [ none ↦ begin_regions | some r ↦ r ]

turns-waiting_regions : run_all turns begin_regions ≡ some waiting_regions
unfolding ℕ_discrete code
turns-waiting_regions = refl

absent : (waiting_regions.barrier.threads 3).arrived ≡ 0
unfolding ℕ_discrete code
absent = refl

begin_together_example : Unbegun waiting_regions.first × Unbegun waiting_regions.second
begin_together_example =
    begin_together turns waiting_regions 3 turns-waiting_regions (omega arith) absent

abbrev empty_kernel : Kernel
empty_kernel = record { memory = 0; bytes = λ _. 0 }

abbrev kmalloc_1000 : ℕ → ℕ
kmalloc_1000 size = 1000

-- With a block at 1000 the memory is the line at 1024, and address 1030 lies in it.
sys_mwmon_kernel_init_lem_example :
    let out = sys_mwmon_kernel_init kmalloc_1000 empty_kernel in
    (out.0 ≡ ok)
    × (out.1.memory % monitored_mem_bytes ≡ 0)
    × (1000 ≤ out.1.memory)
    × (out.1.memory + monitored_mem_bytes ≤ 1000 + 127)
    × (out.1.bytes 1030 ≡ (
        if 1030 / monitored_mem_bytes == out.1.memory / monitored_mem_bytes
        then original_val
        else 0))
    × ((sys_mwmon_kernel_finalize out.1 ≡ 1000) ↔ (1000 % monitored_mem_bytes ≡ 0))
sys_mwmon_kernel_init_lem_example =
    sys_mwmon_kernel_init_lem kmalloc_1000 empty_kernel 1030 (λ e. absurd (omega (arith, e)))
      (omega arith)
