-- ===== src/Trials/Mwait.antt =====
-- `mwait_barrier` as a barrier of test_barriers.c, built with MWMON.
use htsynch.Base.{ℕ, ◌+◌, ◌≤◌, ◌≡◌, refl, ap, Bool, true, false, not, ◌&&◌, arith, if◌then◌else◌}
use htsynch.MwaitBarrier.Defs.{
  Pc, MwaitBarrier, outside, Thread, System, mwait_barrier, interrupt, swap, init, Reach, start,
  step, interrupted, swapped,
}
use htsynch.MwaitBarrier.Invariant.{Inv, Reach-Found}
use htsynch.MwaitBarrier.Safety.{Blocked, separate, never_both-Blocked, waits_for_arrival}
use htsynch.Trials.Interface.{RoundBarrier, Lively}

abbrev is_outside : Pc → Bool
is_outside outside = true
is_outside _ = false

abbrev thread : Bool → System → Thread
thread true s = s.me
thread false s = s.other

abbrev as_thread : Bool → (System → System) → System → System
as_thread true f s = f s
as_thread false f s = swap (f (swap s))

abbrev out : Bool → System → Bool
out b s = is_outside (thread b s).pc

module _ (p : Pc) (bar : MwaitBarrier) (w : ℕ) (armed : Bool) (arrived left : ℕ) (u : Thread) where
  abbrev before : System
  before = record {
    barrier = bar;
    byte = w;
    me = record { pc = p; armed = armed; arrived = arrived; left = left };
    other = u;
  }

out-step_at :
    (p : Pc) (bar : MwaitBarrier) (w : ℕ) (armed : Bool) (arrived left : ℕ) (u : Thread)
    → is_outside p ≡ true
    → is_outside (mwait_barrier (before p bar w armed arrived left u)).me.pc ≡ false
unfolding mwait_barrier
out-step_at outside bar w armed arrived left u e = refl
out-step_at p bar w armed arrived left u e = cc

left-step_at :
    (p : Pc) (bar : MwaitBarrier) (w : ℕ) (armed : Bool) (arrived left : ℕ) (u : Thread)
    → let s = mwait_barrier (before p bar w armed arrived left u) in
      (s.me.left ≡ left + (if not (is_outside p) && is_outside s.me.pc then 1 else 0))
      × (s.other.pc ≡ u.pc)
      × (s.other.left ≡ u.left)
unfolding mwait_barrier
left-step_at outside bar w armed arrived left u = ground arith
left-step_at p bar w armed arrived left u = ground arith

module _ {closing : Bool} {r : ℕ} {s : System} (inv : Inv closing r s) where
  within_lem :
      (s.me.arrived ≤ s.me.left + (if is_outside s.me.pc then 0 else 1))
      × (s.me.left ≤ s.me.arrived)
  within_lem = ground arith

pub begin_out : (b : Bool) → out b init ≡ true
begin_out true = refl
begin_out false = refl

pub begin_left : (b : Bool) → (thread b init).left ≡ 0
begin_left true = refl
begin_left false = refl

is_outside-outside : (p : Pc) → is_outside p ≡ true → p ≡ outside
is_outside-outside p e = ground arith

abbrev step_of : Bool → System → System
step_of b = as_thread b mwait_barrier

abbrev disturb_of : Bool → System → System
disturb_of b = as_thread b interrupt

pub step_of-Reach : (b : Bool) (s : System) → Reach s → Reach (step_of b s)
step_of-Reach true s r = step r
step_of-Reach false s r = swapped (step (swapped r))

pub disturb_of-Reach : (b : Bool) (s : System) → Reach s → Reach (disturb_of b s)
disturb_of-Reach true s r = interrupted r
disturb_of-Reach false s r = swapped (interrupted (swapped r))

pub out-step : (b : Bool) (s : System) → out b s ≡ true → out b (step_of b s) ≡ false
unfolding swap
out-step true s e = out-step_at s.me.pc s.barrier s.byte s.me.armed s.me.arrived s.me.left s.other e
out-step false s e =
    out-step_at s.other.pc s.barrier s.byte s.other.armed s.other.arrived s.other.left s.me e

abbrev StepLeaves : Bool → System → Type 0
StepLeaves b s =
    ((thread b (step_of b s)).left
      ≡ (thread b s).left + (if not (out b s) && out b (step_of b s) then 1 else 0))
    × ((thread (not b) (step_of b s)).pc ≡ (thread (not b) s).pc)
    × ((thread (not b) (step_of b s)).left ≡ (thread (not b) s).left)

pub step_of-StepLeaves : (b : Bool) (s : System) → StepLeaves b s
unfolding swap
step_of-StepLeaves true s =
    left-step_at s.me.pc s.barrier s.byte s.me.armed s.me.arrived s.me.left s.other
step_of-StepLeaves false s =
    left-step_at s.other.pc s.barrier s.byte s.other.armed s.other.arrived s.other.left s.me

pub disturb_of-thread :
    (b c : Bool) (s : System)
    → (out b (disturb_of c s) ≡ out b s) × ((thread b (disturb_of c s)).left ≡ (thread b s).left)
unfolding swap interrupt
disturb_of-thread true true s = (refl, refl)
disturb_of-thread true false s = (refl, refl)
disturb_of-thread false true s = (refl, refl)
disturb_of-thread false false s = (refl, refl)

abbrev Bounds : Bool → System → Type 0
Bounds b s =
    ((thread b s).arrived ≤ (thread b s).left + (if out b s then 0 else 1))
    × ((thread b s).left ≤ (thread b s).arrived)

pub Reach-Bounds : (b : Bool) (s : System) → Reach s → Bounds b s
unfolding swap
Reach-Bounds true s r = within_lem (Reach-Found r).inv
Reach-Bounds false s r = within_lem (Reach-Found (swapped r)).inv

pub Reach-apart : (b : Bool) (s : System) → Reach s → (thread b s).left ≤ (thread (not b) s).arrived
Reach-apart true s r = (separate s r).0
Reach-apart false s r = (separate s r).1

abbrev pub mwait_rounds : RoundBarrier
mwait_rounds = record {
  State = System;
  Noise = Bool;
  begin = init;
  step = step_of;
  disturb = disturb_of;
  out = out;
  arrived = λ b s. (thread b s).arrived;
  left = λ b s. (thread b s).left;
  IsReached = Reach;
  begin-IsReached = start;
  step-IsReached = step_of-Reach;
  disturb-IsReached = disturb_of-Reach;
  out-begin = begin_out;
  left-begin = begin_left;
  out-step = λ b s r. out-step b s;
  left-step = λ b s r. (step_of-StepLeaves b s).0;
  out-step_other = λ b s. ap is_outside (step_of-StepLeaves b s).1;
  left-step_other = λ b s. (step_of-StepLeaves b s).2;
  out-disturb = λ b c s. (disturb_of-thread b c s).0;
  left-disturb = λ b c s. (disturb_of-thread b c s).1;
  within = λ b s r. (Reach-Bounds b s r).0;
  own = λ b s r. (Reach-Bounds b s r).1;
  apart = Reach-apart;
}

abbrev IsBlocked : Bool → System → Type 0
IsBlocked b s = Blocked s.barrier (thread b s)

pub IsBlocked-out : (b : Bool) (s : System) → IsBlocked b s → out b s ≡ false
IsBlocked-out b s k = ground arith

pub IsBlocked-waits :
    (b : Bool) (s : System)
    → Reach s
    → IsBlocked b s
    → out (not b) s ≡ true
    → (thread b s).arrived ≡ (thread (not b) s).arrived + 1
unfolding swap
IsBlocked-waits true s r k o = (waits_for_arrival s r k (is_outside-outside s.other.pc o)).1
IsBlocked-waits false s r k o =
    (waits_for_arrival (swap s) (swapped r) k (is_outside-outside s.me.pc o)).1

-- Nobody is blocked for ever in `mwait_barrier` while the other goes on.
abbrev pub mwait_Lively : Lively mwait_rounds
mwait_Lively = record {
  Blocked = IsBlocked;
  out-Blocked = IsBlocked-out;
  one-Blocked = λ s r h k. never_both-Blocked s r h k;
  waits = IsBlocked-waits;
}
