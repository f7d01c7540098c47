-- ===== src/Barrier/Locked.antt =====
-- `spin_barrier_lsense` of spin.c and the macros of spin.h keep the promise of a barrier.
use htsynch.Base.{ℕ, ◌^◌, ◌≤◌, ◌<◌, arith, Bool, true, false}
use htsynch.Barrier.Spec
use htsynch.Barrier.Spec.{Calls, calls_of, Apart, Moves, Moves-Reach_calls}
use htsynch.LockedBarrier.Defs.{
  SpinBarrier, Pc, outside, Thread, Variant, function, macro, macro_hlt, macro_hltcnt, act_at, code,
  System, turn, Reach, start, later,
}
use htsynch.LockedBarrier.Invariant.{Gather, Full}
use htsynch.LockedBarrier.Safety.{Inv, gather, full, Reach-Inv}

abbrev pub locked_calls : Thread → Calls
locked_calls t = record { arrived = t.arrived; left = t.left }

Gather-Apart : (r : ℕ) (t u : Thread) → Gather r t → Gather r u → t.left ≤ u.arrived
Gather-Apart r t u g h = ground arith

Full-Apart : (n r c : ℕ) (t u : Thread) → Full n r c t → Full n r c u → t.left ≤ u.arrived
Full-Apart n r c t u g h = ground arith

pub Inv-Apart : (n : ℕ) (s : System) → Inv n s → Apart n (calls_of locked_calls s.threads)
Inv-Apart n s inv i p j q = elim inv.phase [
  | gather r flag all counted few ↦ Gather-Apart r (s.threads i) (s.threads j) (all i p) (all j q)
  | full r flag all busy ↦
      Full-Apart n r s.barrier.current_count (s.threads i) (s.threads j) (all i p) (all j q)
]

module _ (halts counts : Bool) (sb : SpinBarrier) (lsense rounds arrived left : ℕ) where
  abbrev at : Pc → Thread
  at p = record { pc = p; lsense = lsense; rounds = rounds; arrived = arrived; left = left }

  Gather-Moves :
      (r : ℕ) (p : Pc)
      → Gather r (at p)
      → Moves (locked_calls (at p)) (locked_calls (act_at halts counts p sb (at p)).1)
  Gather-Moves r outside g = ground arith
  Gather-Moves r p g = ground arith

  Full-Moves :
      (n r c : ℕ) (p : Pc)
      → Full n r c (at p)
      → Moves (locked_calls (at p)) (locked_calls (act_at halts counts p sb (at p)).1)
  Full-Moves n r c outside f = ground arith
  Full-Moves n r c p f = ground arith

act_at-Moves :
    (b c : Bool) (n : ℕ) (s : System) (i : ℕ)
    → i < n
    → Inv n s
    → let t = s.threads i in Moves (locked_calls t) (locked_calls (act_at b c t.pc s.barrier t).1)
act_at-Moves b c n s i lt inv =
    let t = s.threads i in
    elim inv.phase [
      | gather r flag all counted few ↦
          Gather-Moves b c s.barrier t.lsense t.rounds t.arrived t.left r t.pc (all i lt)
      | full r flag all busy ↦
          Full-Moves b c s.barrier t.lsense t.rounds t.arrived t.left n r s.barrier.current_count
            t.pc (all i lt)
    ]

code-Moves :
    (v : Variant) (n : ℕ) (s : System) (i : ℕ)
    → i < n
    → Inv n s
    → let t = s.threads i in Moves (locked_calls t) (locked_calls (code v s.barrier t).1)
unfolding code
code-Moves function = act_at-Moves false false
code-Moves macro = act_at-Moves false false
code-Moves macro_hlt = act_at-Moves true false
code-Moves macro_hltcnt = act_at-Moves true true

-- Whatever the interleaving of `n` threads, fewer than 2 ^ 31, and whichever variants of the
-- barrier they call, their arrivals and departures are those of an abstract barrier: a thread
-- leaves a call only when all `n` have arrived at it.
pub locked_calls-Reach :
    (n : ℕ) (s : System) → n < 2 ^ 31 → Reach n s → Spec.Reach n (calls_of locked_calls s.threads)
locked_calls-Reach n s small start = Spec.start
locked_calls-Reach n s small (later {s = s0} r v i lt) =
    Moves-Reach_calls locked_calls n s0.threads i (code v s0.barrier (s0.threads i)).1
      (locked_calls-Reach n s0 small r) lt
      (code-Moves v n s0 i lt (Reach-Inv (omega arith) small r))
      (Inv-Apart n (turn v s0 i) (Reach-Inv (omega arith) small (later r v i lt)))
