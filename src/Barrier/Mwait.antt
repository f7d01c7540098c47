-- ===== src/Barrier/Mwait.antt =====
-- `mwait_barrier` keeps the promise of a barrier, for its two threads.
use htsynch.Base.{ℕ, zero, suc, ◌≤◌, ◌≡◌, refl, arith, Bool, ℕ_discrete, update}
use mathlib.Core.Path.{subst, sym}
use mathlib.Core.Logic.{if_neg}
use std.Path.{fun_ext}
use htsynch.Barrier.Spec
use htsynch.Barrier.Spec.{Calls, Apart, Moves, Moves-Reach}
use htsynch.MwaitBarrier.Defs.{
  MwaitBarrier, Pc, outside, Thread, System, mwait_barrier, interrupt, swap, Reach, start, step,
  interrupted, swapped,
}
use htsynch.MwaitBarrier.Invariant.{Inv, Reach-Found}

abbrev mwait_calls : Thread → Calls
mwait_calls t = record { arrived = t.arrived; left = t.left }

abbrev nobody : Calls
nobody = record { arrived = 0; left = 0 }

-- The thread `me` as number 0 and the other as number 1.
abbrev pub pair : Calls → Calls → ℕ → Calls
pair c d zero = c
pair c d (suc zero) = d
pair c d (suc (suc _)) = nobody

abbrev pub both_calls : System → ℕ → Calls
both_calls s = pair (mwait_calls s.me) (mwait_calls s.other)

update-pair_first : (b c d : Calls) → update (pair c d) 0 b ≡ pair b d
unfolding ℕ_discrete
update-pair_first b c d = fun_ext at
  where
    at : (j : ℕ) → update (pair c d) 0 b j ≡ pair b d j
    at zero = refl
    at (suc zero) = refl
    at (suc (suc j)) = if_neg (ℕ_discrete 0 (suc (suc j))) (omega arith) b nobody

update-pair_second : (b c d : Calls) → update (pair c d) 1 b ≡ pair c b
unfolding ℕ_discrete
update-pair_second b c d = fun_ext at
  where
    at : (j : ℕ) → update (pair c d) 1 b j ≡ pair c b j
    at zero = refl
    at (suc zero) = refl
    at (suc (suc j)) = if_neg (ℕ_discrete 1 (suc (suc j))) (omega arith) b nobody

-- No return before the other's arrival, and none before the own.
abbrev Behind : Calls → Calls → Type 0
Behind c d =
    (c.left ≤ c.arrived) × (d.left ≤ d.arrived) × (c.left ≤ d.arrived) × (d.left ≤ c.arrived)

Apart-pair : (c d : Calls) → Behind c d → Apart 2 (pair c d)
Apart-pair c d h zero p zero q = h.0
Apart-pair c d h zero p (suc zero) q = h.2
Apart-pair c d h (suc zero) p zero q = h.3
Apart-pair c d h (suc zero) p (suc zero) q = h.1
Apart-pair c d h (suc (suc i)) p j q = absurd (omega (arith, p))
Apart-pair c d h zero p (suc (suc j)) q = absurd (omega (arith, q))
Apart-pair c d h (suc zero) p (suc (suc j)) q = absurd (omega (arith, q))

pair_init : Spec.init ≡ pair nobody nobody
pair_init = fun_ext at
  where
    at : (j : ℕ) → Spec.init j ≡ pair nobody nobody j
    at zero = refl
    at (suc zero) = refl
    at (suc (suc j)) = refl

-- In either order.
abbrev BothReach : Calls → Calls → Type 0
BothReach c d = Spec.Reach 2 (pair c d) × Spec.Reach 2 (pair d c)

Moves-BothReach : (b c d : Calls) → BothReach c d → Moves c b → Behind b d → BothReach b d
Moves-BothReach b c d r m h =
    let e = update-pair_first b c d in
    let k = update-pair_second b d c in
    (
      subst (Spec.Reach 2) e (
          Moves-Reach 2 (pair c d) 0 b r.0 (omega arith) m
            (subst (Apart 2) (sym e) (Apart-pair b d h))),
      subst (Spec.Reach 2) k (
          Moves-Reach 2 (pair d c) 1 b r.1 (omega arith) m
            (subst (Apart 2) (sym k) (Apart-pair d b (h.1, h.0, h.3, h.2)))),
    )

step_at-Moves :
    (p : Pc) (closing : Bool) (r : ℕ) (b : MwaitBarrier) (w : ℕ) (armed : Bool) (arrived left : ℕ)
    (u : Thread)
    → let t : Thread = record { pc = p; armed = armed; arrived = arrived; left = left } in
      let s : System = record { barrier = b; byte = w; me = t; other = u } in
      Inv closing r s
      → Moves (mwait_calls t) (mwait_calls (mwait_barrier s).me)
        × (mwait_calls (mwait_barrier s).other ≡ mwait_calls u)
unfolding mwait_barrier
step_at-Moves outside closing r b w armed arrived left u h = ground arith
step_at-Moves p closing r b w armed arrived left u h = ground arith

Inv-Behind :
    (closing : Bool) (r : ℕ) (s : System)
    → Inv closing r s
    → Behind (mwait_calls s.me) (mwait_calls s.other)
Inv-Behind closing r s h = ground arith

Reach-BothReach : {s : System} → Reach s → BothReach (mwait_calls s.me) (mwait_calls s.other)
unfolding interrupt swap
Reach-BothReach start =
    (subst (Spec.Reach 2) pair_init Spec.start, subst (Spec.Reach 2) pair_init Spec.start)
Reach-BothReach (step {s} r) =
    let f = Reach-Found r in
    let g = Reach-Found (step r) in
    let t = s.me in
    let m =
      step_at-Moves t.pc f.closing f.round s.barrier s.byte t.armed t.arrived t.left s.other
        f.inv in
    let b = Inv-Behind g.closing g.round (mwait_barrier s) g.inv in
    subst (BothReach (mwait_calls (mwait_barrier s).me)) (sym m.1) (
      Moves-BothReach (mwait_calls (mwait_barrier s).me) (mwait_calls t) (mwait_calls s.other)
        (Reach-BothReach r) m.0 (subst (Behind (mwait_calls (mwait_barrier s).me)) m.1 b))
Reach-BothReach (interrupted {s} r) = Reach-BothReach r
Reach-BothReach (swapped {s} r) = let h = Reach-BothReach r in (h.1, h.0)

-- Whatever the two threads of `mwait_barrier` do, in any order and with any interrupts, their
-- arrivals and departures are those of an abstract barrier: a thread leaves a call only when both
-- have arrived at it.
pub mwait_calls-Reach : (s : System) → Reach s → Spec.Reach 2 (both_calls s)
mwait_calls-Reach s r = (Reach-BothReach r).0
