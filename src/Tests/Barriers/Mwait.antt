-- ===== src/Tests/Barriers/Mwait.antt =====
-- Two threads in `mwait_barrier`.
use htsynch.Base.{◌+◌, ◌≡◌, ◌≢◌, refl, inr, List, [], ◌∷◌}
use htsynch.Monitor.Defs.{original_val}
use htsynch.MwaitBarrier.Defs.{
  Pc, mwait_barrier_init, mwait_barrier, interrupt, swap, System, init, Reach, start, step,
  interrupted, swapped,
}
use htsynch.MwaitBarrier.Safety.{
  exclusive, restored, Blocked, never_both-Blocked, waits_for_arrival,
}
use htsynch.Barrier.Spec
use htsynch.Barrier.Mwait.{both_calls, mwait_calls-Reach}

data Move : Type 0 where
  go other halted : Move

record Run : Type 0 where
  last : System
  reach : Reach last

abbrev move : Run → Move → Run
move r Move.go = record { last = mwait_barrier r.last; reach = step r.reach }
move r Move.other = record { last = swap r.last; reach = swapped r.reach }
move r Move.halted = record { last = interrupt r.last; reach = interrupted r.reach }

abbrev schedule : List Move → Run → Run
schedule [] r = r
schedule (m ∷ l) r = schedule l (move r m)

abbrev fresh : Run
fresh = record { last = init; reach = start }

-- The first thread comes, gives the lock back and sleeps, an interrupt included.
abbrev asleep : Run
asleep =
    schedule
      (Move.go ∷ Move.go ∷ Move.go ∷ Move.go ∷ Move.go ∷ Move.go ∷ Move.go ∷ Move.halted ∷ Move.go
        ∷ Move.go ∷ Move.go ∷ Move.go ∷ [])
      fresh

waits_for_arrival_example :
    (asleep.last.me.pc ≡ Pc.halt)
    × (asleep.last.me.arrived ≡ asleep.last.other.arrived + 1)
    × (asleep.last.byte ≡ original_val)
unfolding mwait_barrier interrupt
waits_for_arrival_example = waits_for_arrival asleep.last asleep.reach (inr (refl, refl)) refl

never_both-Blocked_example : ¬ Blocked asleep.last.barrier asleep.last.other
unfolding mwait_barrier interrupt
never_both-Blocked_example = never_both-Blocked asleep.last asleep.reach (inr (refl, refl))

-- The second thread comes with the first asleep, and is about to arrive.
abbrev arriving : Run
arriving = schedule (Move.other ∷ Move.go ∷ Move.go ∷ []) asleep

exclusive_example :
    (arriving.last.other.pc ≢ Pc.arrive)
    × (arriving.last.other.pc ≢ Pc.compare)
    × (arriving.last.other.pc ≢ Pc.let_in)
    × (arriving.last.other.pc ≢ Pc.depart)
unfolding mwait_barrier interrupt swap
exclusive_example = exclusive arriving.last arriving.reach refl

-- It notifies and leaves, and then the first one wakes up and leaves.
abbrev finished : Run
finished =
    schedule
      (Move.go ∷ Move.go ∷ Move.go ∷ Move.go ∷ Move.other ∷ Move.go ∷ Move.go ∷ Move.go ∷ Move.go
        ∷ Move.go ∷ [])
      arriving

restored_example :
    (finished.last.barrier ≡ mwait_barrier_init 2) × (finished.last.byte ≡ original_val)
unfolding mwait_barrier interrupt swap
restored_example = restored finished.last finished.reach refl refl

mwait_calls-Reach_example : Spec.Reach 2 (both_calls finished.last)
mwait_calls-Reach_example = mwait_calls-Reach finished.last finished.reach
