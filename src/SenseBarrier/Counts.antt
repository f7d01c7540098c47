-- ===== src/SenseBarrier/Counts.antt =====
-- The counts of a thread of `spin_barrier_lsense` by where it stands.
use htsynch.Base.{ℕ, ◌+◌, ◌≡◌, arith}
use htsynch.SenseBarrier.Defs.{Pc, SpinBarrier, outside, flipped, Thread, spin_barrier_lsense}

-- A thread that has arrived at its call and not returned.
abbrev pub inside : Pc → ℕ
inside outside = 0
inside flipped = 0
inside _ = 1

abbrev pub Counts : Thread → Type 0
Counts t = t.arrived ≡ t.left + inside t.pc

pub act-Counts :
    (p : Pc) (b : SpinBarrier) (lsense arrived left : ℕ)
    → let t : Thread = record { pc = p; lsense = lsense; arrived = arrived; left = left } in
      Counts t → Counts (spin_barrier_lsense b t).1
unfolding spin_barrier_lsense
act-Counts outside b lsense arrived left c = ground arith
act-Counts p b lsense arrived left c = ground arith
