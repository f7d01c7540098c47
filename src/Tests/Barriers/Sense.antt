-- ===== src/Tests/Barriers/Sense.antt =====
-- `spin_barrier_lsense` with two threads that run into its race.
use htsynch.Base.{◌≡◌}
use htsynch.SenseBarrier.Defs.{Pc, init, Reach, start}
use htsynch.SenseBarrier.Race.{raced, lost_arrival}

lost_arrival_example :
    Reach 2 (init 2) (raced 1)
    × (((raced 1).threads 0).pc ≡ Pc.waiting)
    × (((raced 1).threads 1).pc ≡ Pc.waiting)
    × (((raced 1).threads 0).left ≡ 2)
    × (((raced 1).threads 1).left ≡ 2)
lost_arrival_example = lost_arrival 1 (raced 1) start
