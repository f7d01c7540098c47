-- ===== src/Trials/Sense.antt =====
-- `spin_barrier_lsense` as a barrier of test_barriers.c, built with SPINPAUSE.
use htsynch.Base.{
  ℕ, ◌+◌, ◌<◌, ◌≤◌, ◌≡◌, refl, ap, Bool, true, false, not, ◌&&◌, arith, if◌then◌else◌, ℕ_discrete,
  zero, suc,
}
use htsynch.SenseBarrier.Defs.{
  Pc, SpinBarrier, outside, Thread, System, spin_barrier_lsense, init, turn, Reach, start, later,
}
use htsynch.SenseBarrier.Counts.{Counts, act-Counts}
use htsynch.SenseBarrier.Safety.{left-le-arrived}
use htsynch.Trials.Interface.{RoundBarrier}

abbrev pub is_outside : Pc → Bool
is_outside outside = true
is_outside _ = false

abbrev pub index : Bool → ℕ
index true = 0
index false = 1

pub index-lt : (b : Bool) → index b < 2
index-lt true = omega arith
index-lt false = omega arith

abbrev thread : Bool → System → Thread
thread b s = s.threads (index b)

abbrev out : Bool → System → Bool
out b s = is_outside (thread b s).pc

abbrev step_of : Bool → System → System
step_of b s = turn s (index b)

act-left :
    (p : Pc) (b : SpinBarrier) (lsense arrived left : ℕ)
    → let t : Thread = record { pc = p; lsense = lsense; arrived = arrived; left = left } in
      let t' = (spin_barrier_lsense b t).1 in
      (t'.left ≡ left + (if not (is_outside p) && is_outside t'.pc then 1 else 0))
      × (is_outside p ≡ true → is_outside t'.pc ≡ false)
unfolding spin_barrier_lsense
act-left outside b lsense arrived left = ground arith
act-left p b lsense arrived left = ground arith

step_of-threads :
    (b : Bool) (s : System)
    → (thread b (step_of b s) ≡ (spin_barrier_lsense s.barrier (thread b s)).1)
      × (thread (not b) (step_of b s) ≡ thread (not b) s)
unfolding ℕ_discrete
step_of-threads true s = (refl, refl)
step_of-threads false s = (refl, refl)

abbrev Leaves : Bool → System → Type 0
Leaves b s =
    ((thread b (step_of b s)).left
      ≡ (thread b s).left + (if not (out b s) && out b (step_of b s) then 1 else 0))
    × (out b s ≡ true → out b (step_of b s) ≡ false)

pub step_of-Leaves : (b : Bool) (s : System) → Leaves b s
step_of-Leaves b s =
    let t = thread b s in
    rw ((step_of-threads b s).0) (act-left t.pc s.barrier t.lsense t.arrived t.left)

pub step_of-other : (b : Bool) (s : System) → thread (not b) (step_of b s) ≡ thread (not b) s
step_of-other b s = (step_of-threads b s).1

step_of-Counts : (b : Bool) (s : System) → Counts (thread b s) → Counts (thread b (step_of b s))
step_of-Counts b s c =
    let t = thread b s in
    rw ((step_of-threads b s).0) (act-Counts t.pc s.barrier t.lsense t.arrived t.left c)

Counts-other :
    (b : Bool) (s : System) → Counts (thread (not b) s) → Counts (thread (not b) (step_of b s))
Counts-other b s c = rw (step_of-other b s) c

Reach-Counts : (s : System) → Reach 2 (init 2) s → Counts (thread true s) × Counts (thread false s)
Reach-Counts s start = (refl, refl)
Reach-Counts s (later {t} r zero lt) =
    let (a, c) = Reach-Counts t r in (step_of-Counts true t a, Counts-other true t c)
Reach-Counts s (later {t} r (suc zero) lt) =
    let (a, c) = Reach-Counts t r in (Counts-other false t a, step_of-Counts false t c)
Reach-Counts s (later {t} r (suc (suc i)) lt) = absurd (omega arith)

pub IsReached-step : (b : Bool) (s : System) → Reach 2 (init 2) s → Reach 2 (init 2) (step_of b s)
IsReached-step b s r = later r (index b) (index-lt b)

abbrev Bounds : Bool → System → Type 0
Bounds b s =
    ((thread b s).arrived ≤ (thread b s).left + (if out b s then 0 else 1))
    × ((thread b s).left ≤ (thread b s).arrived)

Counts-Bounds :
    (p : Pc) (lsense arrived left : ℕ)
    → let t : Thread = record { pc = p; lsense = lsense; arrived = arrived; left = left } in
      Counts t → (arrived ≤ left + (if is_outside p then 0 else 1)) × (left ≤ arrived)
Counts-Bounds p lsense arrived left c = ground arith

pub Reach-Bounds : (b : Bool) (s : System) → Reach 2 (init 2) s → Bounds b s
Reach-Bounds true s r =
    let t = thread true s in Counts-Bounds t.pc t.lsense t.arrived t.left (Reach-Counts s r).0
Reach-Bounds false s r =
    let t = thread false s in Counts-Bounds t.pc t.lsense t.arrived t.left (Reach-Counts s r).1

pub Reach-apart :
    (b : Bool) (s : System) → Reach 2 (init 2) s → (thread b s).left ≤ (thread (not b) s).arrived
Reach-apart b s r =
    (left-le-arrived 2 s (omega arith) r (index b) (index (not b)) (index-lt b)
      (index-lt (not b))).0

pub begin_out : (b : Bool) → out b (init 2) ≡ true
begin_out b = refl

pub begin_left : (b : Bool) → (thread b (init 2)).left ≡ 0
begin_left b = refl

-- Nothing else happens to the threads.
abbrev pub sense_rounds : RoundBarrier
sense_rounds = record {
  State = System;
  Noise = ⊥;
  begin = init 2;
  step = step_of;
  disturb = λ e s. s;
  out = out;
  arrived = λ b s. (thread b s).arrived;
  left = λ b s. (thread b s).left;
  IsReached = Reach 2 (init 2);
  begin-IsReached = start;
  step-IsReached = IsReached-step;
  disturb-IsReached = λ e s r. r;
  out-begin = begin_out;
  left-begin = begin_left;
  out-step = λ b s r. (step_of-Leaves b s).1;
  left-step = λ b s r. (step_of-Leaves b s).0;
  out-step_other = λ b s. ap (λ (t : Thread). is_outside t.pc) (step_of-other b s);
  left-step_other = λ b s. ap (λ (t : Thread). t.left) (step_of-other b s);
  out-disturb = λ b e s. refl;
  left-disturb = λ b e s. refl;
  within = λ b s r. (Reach-Bounds b s r).0;
  own = λ b s r. (Reach-Bounds b s r).1;
  apart = Reach-apart;
}
