-- ===== src/MwaitBarrier/Safety.antt =====
-- What two threads can rely on, whatever their interleaving and whatever interrupts come.
use htsynch.Base.{ℕ, ◌+◌, ◌^◌, ◌≤◌, ◌≡◌, ◌≢◌, Bool, true, false, ◌⊎◌, arith, signed_lt}
use htsynch.Monitor.Defs.{original_val}
use htsynch.MwaitBarrier.Defs.{
  outside, spin, arrive, compare, let_in, halt, depart, Thread, System, MwaitBarrier,
  mwait_barrier_init, Reach,
}
use htsynch.MwaitBarrier.Invariant.{Inv, Reach-Found}

module _ {closing : Bool} {r : ℕ} {s : System} (inv : Inv closing r s) where
  separate_lem :
      (s.me.left ≤ s.other.arrived)
      × (s.other.left ≤ s.me.arrived)
      × (s.me.arrived ≤ s.other.arrived + 1)
  separate_lem = ground arith

  exclusive_lem :
      s.me.pc ≡ arrive
      → (s.other.pc ≢ arrive)
        × (s.other.pc ≢ compare)
        × (s.other.pc ≢ let_in)
        × (s.other.pc ≢ depart)
  exclusive_lem h = ground arith

  restored_lem :
      s.me.pc ≡ outside
      → s.other.pc ≡ outside
      → (s.barrier ≡ mwait_barrier_init 2) × (s.byte ≡ original_val)
  restored_lem h k = ground arith

-- Neither thread has returned from more calls of `mwait_barrier` than the other has arrived at, and
-- neither is more than one arrival ahead.
pub separate :
    (s : System)
    → Reach s
    → (s.me.left ≤ s.other.arrived)
      × (s.other.left ≤ s.me.arrived)
      × (s.me.arrived ≤ s.other.arrived + 1)
separate s reach = separate_lem (Reach-Found reach).inv

-- While a thread increments `gathered`, which is no atomic instruction, the other neither
-- increments nor tests nor decrements it, and is not at the unlock of the first to arrive.
pub exclusive :
    (s : System)
    → Reach s
    → s.me.pc ≡ arrive
    → (s.other.pc ≢ arrive) × (s.other.pc ≢ compare) × (s.other.pc ≢ let_in) × (s.other.pc ≢ depart)
exclusive s reach = exclusive_lem (Reach-Found reach).inv

-- Whenever both threads are outside, the barrier is as after `mwait_barrier_init`, and the monitored
-- byte holds the original value, as opening the device leaves it.
pub restored :
    (s : System)
    → Reach s
    → s.me.pc ≡ outside
    → s.other.pc ≡ outside
    → (s.barrier ≡ mwait_barrier_init 2) × (s.byte ≡ original_val)
restored s reach = restored_lem (Reach-Found reach).inv

-- A thread that its own steps cannot get past: in the spin loop with the lock not seen free, or in
-- MWAIT with its processor armed.
abbrev pub Blocked : MwaitBarrier → Thread → Type 0
Blocked b t =
    ((t.pc ≡ spin) × (signed_lt (2 ^ 31) 0 b.lock ≡ false)) ⊎ ((t.pc ≡ halt) × (t.armed ≡ true))

module _ {closing : Bool} {r : ℕ} {s : System} (inv : Inv closing r s) where
  never_both-Blocked_lem : Blocked s.barrier s.me → Blocked s.barrier s.other → ⊥
  never_both-Blocked_lem h k = ground arith

  waits_for_arrival_lem :
      Blocked s.barrier s.me
      → s.other.pc ≡ outside
      → (s.me.pc ≡ halt) × (s.me.arrived ≡ s.other.arrived + 1) × (s.byte ≡ original_val)
  waits_for_arrival_lem h k = ground arith

-- The two threads are never blocked together.
pub never_both-Blocked :
    (s : System) → Reach s → Blocked s.barrier s.me → ¬ Blocked s.barrier s.other
never_both-Blocked s reach = never_both-Blocked_lem (Reach-Found reach).inv

-- A thread that is blocked while the other is outside the barrier sleeps in the system call, and
-- waits for the other to arrive at the call that it has arrived at itself; no notification is
-- pending.
pub waits_for_arrival :
    (s : System)
    → Reach s
    → Blocked s.barrier s.me
    → s.other.pc ≡ outside
    → (s.me.pc ≡ halt) × (s.me.arrived ≡ s.other.arrived + 1) × (s.byte ≡ original_val)
waits_for_arrival s reach = waits_for_arrival_lem (Reach-Found reach).inv
