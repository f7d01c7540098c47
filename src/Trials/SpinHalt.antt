-- ===== src/Trials/SpinHalt.antt =====
-- `spin_barrier_lsense_cpuhalt_sendIPI` as a barrier of test_barriers.c, built with SPINHALT.
use htsynch.Base.{ℕ, ◌+◌, ◌≤◌, ◌≡◌, refl, sym, Bool, true, false, not, ◌&&◌, arith, if◌then◌else◌}
use mathlib.Core.Path.{subst}
use htsynch.SenseBarrier.Defs
use htsynch.SenseBarrier.Halting.{
  Mode, Thread, System, init, interrupt, Reach, start, later, interrupted,
}
use htsynch.SenseBarrier.Halted.{erase, erase-Reach}
use htsynch.Trials.Interface.{RoundBarrier}
use htsynch.Trials.Sense.{is_outside, index, index-lt, Reach-Bounds, Reach-apart}
use htsynch.Trials.Halting.{
  thread, is_out, returned, Settled, own_after-Returns, turn_at-own, Kept, step_at, step_at-other,
  interrupt-Kept, Reach-Settled,
}

-- A thread that others cannot tell from `t` but by its sleep.
Kept-seen : (t t' : Thread) → Kept t t' → (is_out t' ≡ is_out t) × (returned t' ≡ returned t)
Kept-seen t t' k = ground (arith, k.core_kept, k.sending_kept)

module _ (wakes : ℕ → ℕ → Bool) where
  abbrev step_of : Bool → System → System
  step_of b s = step_at wakes true b s

  pub step_of-Returns :
      (b : Bool) (s : System)
      → Reach wakes 2 s
      → let t = thread b s in
        let t' = thread b (step_of b s) in
        (is_out t ≡ true → is_out t' ≡ false)
        × (returned t' ≡ returned t + (if not (is_out t) && is_out t' then 1 else 0))
  step_of-Returns b s r =
      let t = thread b s in
      let c = t.core in
      subst
        (λ (u : Thread).
          (is_out t ≡ true → is_out u ≡ false)
          × (returned u ≡ returned t + (if not (is_out t) && is_out u then 1 else 0)))
        (sym (turn_at-own wakes true b t.mode s refl))
        (own_after-Returns t.mode s.barrier c.pc c.lsense c.arrived c.left
          (Reach-Settled wakes s r b))

  pub step_of-other :
      (b : Bool) (s : System)
      → let t = thread (not b) s in
        let t' = thread (not b) (step_of b s) in (is_out t' ≡ is_out t) × (returned t' ≡ returned t)
  step_of-other b s = Kept-seen _ _ (step_at-other wakes true b s)

  pub disturb-seen :
      (b e : Bool) (s : System)
      → let t = thread b s in
        let t' = thread b (interrupt s (index e)) in
        (is_out t' ≡ is_out t) × (returned t' ≡ returned t)
  disturb-seen b e s = Kept-seen _ _ (interrupt-Kept wakes b e s)

  bounds_at :
      (p : Defs.Pc) (m : Mode) (lsense arrived left : ℕ)
      → let c : Defs.Thread = record { pc = p; lsense = lsense; arrived = arrived; left = left } in
        let t : Thread = record { core = c; mode = m } in
        Settled t
        → (arrived ≤ left + (if is_outside p then 0 else 1)) × (left ≤ arrived)
        → (arrived ≤ returned t + (if is_out t then 0 else 1)) × (returned t ≤ arrived)
  bounds_at p m lsense arrived left h e = ground arith

  pub halt-Bounds :
      (b : Bool) (s : System)
      → Reach wakes 2 s
      → let t = thread b s in
        (t.core.arrived ≤ returned t + (if is_out t then 0 else 1)) × (returned t ≤ t.core.arrived)
  halt-Bounds b s r =
      let t = thread b s in
      let c = t.core in
      bounds_at c.pc t.mode c.lsense c.arrived c.left (Reach-Settled wakes s r b)
        (Reach-Bounds b (erase s) (erase-Reach wakes 2 s r))

  pub halt-apart :
      (b : Bool) (s : System)
      → Reach wakes 2 s
      → returned (thread b s) ≤ (thread (not b) s).core.arrived
  halt-apart b s r =
      let h : (thread b s).core.left ≤ (thread (not b) s).core.arrived =
        Reach-apart b (erase s) (erase-Reach wakes 2 s r) in
      omega (arith, h)

  pub halt_out : (b : Bool) → is_out (thread b (init 2)) ≡ true
  halt_out b = refl

  pub halt_returned : (b : Bool) → returned (thread b (init 2)) ≡ 0
  halt_returned b = refl

-- Whatever the driver's interrupts; besides, any interrupt may come at any time.
abbrev pub halting_rounds : (ℕ → ℕ → Bool) → RoundBarrier
halting_rounds wakes = record {
  State = System;
  Noise = Bool;
  begin = init 2;
  step = step_of wakes;
  disturb = λ e s. interrupt s (index e);
  out = λ b s. is_out (thread b s);
  arrived = λ b s. (thread b s).core.arrived;
  left = λ b s. returned (thread b s);
  IsReached = Reach wakes 2;
  begin-IsReached = start;
  step-IsReached = λ b s r. later r true (index b) (index-lt b);
  disturb-IsReached = λ e s r. interrupted r (index e) (index-lt e);
  out-begin = halt_out wakes;
  left-begin = halt_returned wakes;
  out-step = λ b s r. (step_of-Returns wakes b s r).0;
  left-step = λ b s r. (step_of-Returns wakes b s r).1;
  out-step_other = λ b s. (step_of-other wakes b s).0;
  left-step_other = λ b s. (step_of-other wakes b s).1;
  out-disturb = λ b e s. (disturb-seen wakes b e s).0;
  left-disturb = λ b e s. (disturb-seen wakes b e s).1;
  within = λ b s r. (halt-Bounds wakes b s r).0;
  own = λ b s r. (halt-Bounds wakes b s r).1;
  apart = halt-apart wakes;
}
