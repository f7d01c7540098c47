-- ===== src/Trials/Halting.antt =====
-- The steps of a thread in `spin_barrier_lsense_cpuhalt_sendIPI`, for Trials/SpinHalt. A call returns
-- after it has sent its interrupts, which `wakes` says as in SenseBarrier/Halting.
use htsynch.Base.{
  ℕ, ◌+◌, ◌-◌, ◌≤◌, ◌≡◌, refl, sym, ap, ◌∙◌, Bool, true, false, not, ◌&&◌, arith, if◌then◌else◌,
  ℕ_discrete, zero, suc,
}
use htsynch.SenseBarrier.Defs
use htsynch.SenseBarrier.Defs.{SpinBarrier, outside, waiting, spin_barrier_lsense}
use htsynch.SenseBarrier.Halting.{
  Mode, running, halting, halted, sending, Thread, System, act_at, woken, waken, interrupts,
  turn_at, turn, interrupt, Reach, start, later, interrupted,
}
use htsynch.Trials.Sense.{is_outside, index}

abbrev pub is_sending : Mode → Bool
is_sending sending = true
is_sending _ = false

abbrev is_asleep : Mode → Bool
is_asleep halting = true
is_asleep halted = true
is_asleep _ = false

abbrev pub thread : Bool → System → Thread
thread b s = s.threads (index b)

abbrev pub is_out : Thread → Bool
is_out t = is_outside t.core.pc && not (is_sending t.mode)

-- The calls that a thread has returned from.
abbrev pub returned : Thread → ℕ
returned t = t.core.left - (if is_sending t.mode then 1 else 0)

-- Only a waiting thread halts, and only one that is leaving sends.
pub record Settled (t : Thread) : Type 0 where
  pub asleep : is_asleep t.mode ≡ true → t.core.pc ≡ waiting
  pub leaving : is_sending t.mode ≡ true → (t.core.pc ≡ outside) × (1 ≤ t.core.left)

-- What a step leaves of its thread.
abbrev pub own_after : Bool → Mode → SpinBarrier → Defs.Thread → Thread
own_after ipi m b c = (act_at ipi m c.pc b c).1

own_after-Settled :
    (ipi : Bool) (m : Mode) (b : SpinBarrier) (p : Defs.Pc) (lsense arrived left : ℕ)
    → let c : Defs.Thread = record { pc = p; lsense = lsense; arrived = arrived; left = left } in
      Settled (record { core = c; mode = m }) → Settled (own_after ipi m b c)
unfolding spin_barrier_lsense
own_after-Settled ipi running b p lsense arrived left h = ground arith
own_after-Settled ipi m b p lsense arrived left h = ground arith

pub own_after-Returns :
    (m : Mode) (b : SpinBarrier) (p : Defs.Pc) (lsense arrived left : ℕ)
    → let c : Defs.Thread = record { pc = p; lsense = lsense; arrived = arrived; left = left } in
      let t : Thread = record { core = c; mode = m } in
      let t' = own_after true m b c in
      Settled t
      → (is_out t ≡ true → is_out t' ≡ false)
        × (returned t' ≡ returned t + (if not (is_out t) && is_out t' then 1 else 0))
unfolding spin_barrier_lsense
own_after-Returns running b p lsense arrived left h = ground arith
own_after-Returns m b p lsense arrived left h = ground arith

-- What an interrupt that may have come leaves of a thread.
pub record Kept (t t' : Thread) : Type 0 where
  pub core_kept : t'.core ≡ t.core
  pub sending_kept : is_sending t'.mode ≡ is_sending t.mode
  pub settled_kept : Settled t → Settled t'

waken-Kept :
    (w : Bool) (m : Mode) (c : Defs.Thread)
    → let t : Thread = record { core = c; mode = m } in Kept t (waken w t)
waken-Kept true m c = record {
  core_kept = refl;
  sending_kept = ground arith;
  settled_kept = λ h. ground arith;
}
waken-Kept false m c = record { core_kept = refl; sending_kept = refl; settled_kept = λ h. h }

same-Kept : (t : Thread) → Kept t t
same-Kept t = record { core_kept = refl; sending_kept = refl; settled_kept = λ h. h }

waken_running : (w : Bool) (t : Thread) → t.mode ≡ running → waken w t ≡ t
waken_running true t e =
    ap (λ (m : Mode). record { core = t.core; mode = m }) (ap (woken true) e ∙ sym e)
waken_running false t e = refl

module _ (wakes : ℕ → ℕ → Bool) where
  abbrev pub step_at : Bool → Bool → System → System
  step_at ipi b s = turn wakes ipi s (index b)

  waken-own :
      (i : ℕ) (ipi : Bool) (m : Mode) (b : SpinBarrier) (c : Defs.Thread)
      → waken (interrupts wakes m i i) (own_after ipi m b c) ≡ own_after ipi m b c
  waken-own i ipi sending b c = waken_running (wakes i i) (own_after ipi sending b c) refl
  waken-own i ipi running b c = refl
  waken-own i ipi halting b c = refl
  waken-own i ipi halted b c = refl

  pub turn_at-own :
      (ipi b : Bool) (m : Mode) (s : System)
      → m ≡ (thread b s).mode
      → thread b (turn_at wakes ipi m s (index b)) ≡ own_after ipi m s.barrier (thread b s).core
  unfolding ℕ_discrete
  turn_at-own ipi true m s e = waken-own 0 ipi m s.barrier (s.threads 0).core
  turn_at-own ipi false m s e = waken-own 1 ipi m s.barrier (s.threads 1).core

  turn_at-other :
      (ipi b : Bool) (m : Mode) (s : System)
      → Kept (thread (not b) s) (thread (not b) (turn_at wakes ipi m s (index b)))
  unfolding ℕ_discrete
  turn_at-other ipi true sending s = waken-Kept (wakes 0 1) (s.threads 1).mode (s.threads 1).core
  turn_at-other ipi false sending s = waken-Kept (wakes 1 0) (s.threads 0).mode (s.threads 0).core
  turn_at-other ipi true m s = same-Kept (s.threads 1)
  turn_at-other ipi false m s = same-Kept (s.threads 0)

  pub step_at-Settled :
      (ipi b : Bool) (s : System) → Settled (thread b s) → Settled (thread b (step_at ipi b s))
  step_at-Settled true b s h =
      let t = thread b s in
      let c = t.core in
      rw (turn_at-own true b t.mode s refl)
        (own_after-Settled true t.mode s.barrier c.pc c.lsense c.arrived c.left h)
  step_at-Settled false b s h =
      let t = thread b s in
      let c = t.core in
      rw (turn_at-own false b t.mode s refl)
        (own_after-Settled false t.mode s.barrier c.pc c.lsense c.arrived c.left h)

  pub step_at-other :
      (ipi b : Bool) (s : System) → Kept (thread (not b) s) (thread (not b) (step_at ipi b s))
  step_at-other true b s = turn_at-other true b (thread b s).mode s
  step_at-other false b s = turn_at-other false b (thread b s).mode s

  pub interrupt-Kept :
      (b c : Bool) (s : System) → Kept (thread b s) (thread b (interrupt s (index c)))
  unfolding ℕ_discrete
  interrupt-Kept true true s = waken-Kept true (s.threads 0).mode (s.threads 0).core
  interrupt-Kept false false s = waken-Kept true (s.threads 1).mode (s.threads 1).core
  interrupt-Kept true false s = same-Kept (s.threads 0)
  interrupt-Kept false true s = same-Kept (s.threads 1)

  pub Reach-Settled : (s : System) → Reach wakes 2 s → (b : Bool) → Settled (thread b s)
  Reach-Settled s start b = ground arith
  Reach-Settled s (later {s = t} r ipi zero lt) true =
      step_at-Settled ipi true t (Reach-Settled t r true)
  Reach-Settled s (later {s = t} r ipi zero lt) false =
      (step_at-other ipi true t).settled_kept (Reach-Settled t r false)
  Reach-Settled s (later {s = t} r ipi (suc zero) lt) true =
      (step_at-other ipi false t).settled_kept (Reach-Settled t r true)
  Reach-Settled s (later {s = t} r ipi (suc zero) lt) false =
      step_at-Settled ipi false t (Reach-Settled t r false)
  Reach-Settled s (later {s = t} r ipi (suc (suc i)) lt) b = absurd (omega arith)
  Reach-Settled s (interrupted {s = t} r zero lt) b =
      (interrupt-Kept b true t).settled_kept (Reach-Settled t r b)
  Reach-Settled s (interrupted {s = t} r (suc zero) lt) b =
      (interrupt-Kept b false t).settled_kept (Reach-Settled t r b)
  Reach-Settled s (interrupted {s = t} r (suc (suc i)) lt) b = absurd (omega arith)
