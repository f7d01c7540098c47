-- ===== src/Barrier/Sense.antt =====
-- `spin_barrier_lsense` of synch.h keeps the promise of a barrier, though it can deadlock.
use htsynch.Base.{ℕ, ◌^◌, ◌≤◌, ◌<◌, arith}
use htsynch.Barrier.Spec
use htsynch.Barrier.Spec.{Calls, calls_of, Apart, Moves, Moves-Reach_calls}
use htsynch.SenseBarrier.Defs.{
  SpinBarrier, Pc, outside, Thread, spin_barrier_lsense, System, init, turn, Reach, start, later,
}
use htsynch.SenseBarrier.Invariant.{Gather, Full, Close}
use htsynch.SenseBarrier.Safety.{Inv, gather, full, close, Reach-Inv}

abbrev pub sense_calls : Thread → Calls
sense_calls t = record { arrived = t.arrived; left = t.left }

module _ (r : ℕ) (t u : Thread) where
  Gather-Apart : Gather r t → Gather r u → t.left ≤ u.arrived
  Gather-Apart g h = ground arith

  Full-Apart : Full r t → Full r u → t.left ≤ u.arrived
  Full-Apart g h = ground arith

  Close-Apart : Close r t → Close r u → t.left ≤ u.arrived
  Close-Apart g h = ground arith

Inv-Apart : (n : ℕ) (s : System) → Inv n s → Apart n (calls_of sense_calls s.threads)
Inv-Apart n s inv i p j q = elim inv.phase [
  | gather r flag all counted few ↦ Gather-Apart r (s.threads i) (s.threads j) (all i p) (all j q)
  | full r flag all ↦ Full-Apart r (s.threads i) (s.threads j) (all i p) (all j q)
  | close r flag all counted ↦ Close-Apart r (s.threads i) (s.threads j) (all i p) (all j q)
]

module _ (sb : SpinBarrier) (lsense arrived left r : ℕ) where
  abbrev at : Pc → Thread
  at p = record { pc = p; lsense = lsense; arrived = arrived; left = left }

  Gather-Moves :
      (p : Pc)
      → Gather r (at p)
      → Moves (sense_calls (at p)) (sense_calls (spin_barrier_lsense sb (at p)).1)
  unfolding spin_barrier_lsense
  Gather-Moves outside g = ground arith
  Gather-Moves p g = ground arith

  Full-Moves :
      (p : Pc)
      → Full r (at p)
      → Moves (sense_calls (at p)) (sense_calls (spin_barrier_lsense sb (at p)).1)
  unfolding spin_barrier_lsense
  Full-Moves outside g = ground arith
  Full-Moves p g = ground arith

  Close-Moves :
      (p : Pc)
      → Close r (at p)
      → Moves (sense_calls (at p)) (sense_calls (spin_barrier_lsense sb (at p)).1)
  unfolding spin_barrier_lsense
  Close-Moves outside g = ground arith
  Close-Moves p g = ground arith

step-Moves :
    (n : ℕ) (s : System) (i : ℕ)
    → i < n
    → Inv n s
    → let t = s.threads i in Moves (sense_calls t) (sense_calls (spin_barrier_lsense s.barrier t).1)
step-Moves n s i lt inv =
    let t = s.threads i in
    elim inv.phase [
      | gather r flag all counted few ↦
          Gather-Moves s.barrier t.lsense t.arrived t.left r t.pc (all i lt)
      | full r flag all ↦ Full-Moves s.barrier t.lsense t.arrived t.left r t.pc (all i lt)
      | close r flag all counted ↦ Close-Moves s.barrier t.lsense t.arrived t.left r t.pc (all i lt)
    ]

-- Whatever the interleaving of `n` threads, fewer than 2 ^ 31, their arrivals and departures are
-- those of an abstract barrier: a thread leaves a call of `spin_barrier_lsense` only when all `n`
-- have arrived at it.
pub sense_calls-Reach :
    (n : ℕ) (s : System)
    → n < 2 ^ 31
    → Reach n (init n) s
    → Spec.Reach n (calls_of sense_calls s.threads)
sense_calls-Reach n s small start = Spec.start
sense_calls-Reach n s small (later {t = s0} r i lt) =
    Moves-Reach_calls sense_calls n s0.threads i (spin_barrier_lsense s0.barrier (s0.threads i)).1
      (sense_calls-Reach n s0 small r) lt (step-Moves n s0 i lt (Reach-Inv small r))
      (Inv-Apart n (turn s0 i) (Reach-Inv small (later r i lt)))
