-- ===== src/LockedBarrier/Counts.antt =====
-- The counts of a thread of the barrier under the lock by where it stands.
use htsynch.Base.{ℕ, ◌+◌, ◌≤◌, ◌≡◌, arith}
use htsynch.LockedBarrier.Defs.{
  Pc, outside, try, spin, count, SpinBarrier, Thread, Variant, function, macro, macro_hlt,
  macro_hltcnt, code,
}

-- A thread that has arrived at its call and not returned.
abbrev pub inside : Pc → ℕ
inside outside = 0
inside try = 0
inside spin = 0
inside count = 0
inside _ = 1

abbrev pub Counts : Thread → Type 0
Counts t = t.arrived ≡ t.left + inside t.pc

pub code-Counts : (v : Variant) (b : SpinBarrier) (t : Thread) → Counts t → Counts (code v b t).1
unfolding code
code-Counts function b t c = ground arith
code-Counts macro b t c = ground arith
code-Counts macro_hlt b t c = ground arith
code-Counts macro_hltcnt b t c = ground arith

pub arrived-le : (v : Variant) (b : SpinBarrier) (t : Thread) → t.arrived ≤ (code v b t).1.arrived
unfolding code
arrived-le function b t = ground arith
arrived-le macro b t = ground arith
arrived-le macro_hlt b t = ground arith
arrived-le macro_hltcnt b t = ground arith

pub left-le : (v : Variant) (b : SpinBarrier) (t : Thread) → t.left ≤ (code v b t).1.left
unfolding code
left-le function b t = ground arith
left-le macro b t = ground arith
left-le macro_hlt b t = ground arith
left-le macro_hltcnt b t = ground arith
