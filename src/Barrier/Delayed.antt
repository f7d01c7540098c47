-- ===== src/Barrier/Delayed.antt =====
-- `spin_barrier_lsense` of spin.c and the macros of spin.h keep the promise of a barrier behind store
-- buffers too.
use htsynch.Base.{ℕ, ◌^◌, ◌<◌, refl, ap, arith, inl, update, update-all}
use htsynch.Barrier.Spec
use htsynch.Barrier.Spec.{Calls, calls_of, Apart, Moves, Moves-Reach_calls}
use htsynch.Barrier.Locked.{Inv-Apart}
use htsynch.LockedBarrier.Defs
use htsynch.LockedBarrier.Defs.{
  SpinBarrier, Pc, outside, Variant, function, macro, macro_hlt, macro_hltcnt, code,
}
use htsynch.LockedBarrier.Counts.{Counts, code-Counts}
use htsynch.LockedBarrier.Safety.{Reach-Inv}
use htsynch.LockedBarrier.Buffers.{
  Thread, Machine, view, Step, plain, store, locked, drain, Reach, start, later,
}
use htsynch.LockedBarrier.Buffered.{Reach-Finished}

abbrev pub delayed_calls : Thread → Calls
delayed_calls t = record { arrived = t.core.arrived; left = t.core.left }

code-Moves :
    (v : Variant) (b : SpinBarrier) (t : Defs.Thread)
    → let t' = (code v b t).1 in
      Counts t
      → Moves
          (record { arrived = t.arrived; left = t.left })
          (record { arrived = t'.arrived; left = t'.left })
unfolding code
code-Moves function b t c = ground arith
code-Moves macro b t c = ground arith
code-Moves macro_hlt b t c = ground arith
code-Moves macro_hltcnt b t c = ground arith

abbrev AllCount : Machine → Type 0
AllCount m = (j : ℕ) → Counts (m.threads j).core

put-Counts :
    (m : Machine) (i : ℕ) (t : Thread)
    → AllCount m
    → Counts t.core
    → (j : ℕ) → Counts (update m.threads i t j).core
put-Counts m i t all c = update-all (λ (u : Thread). Counts u.core) m.threads i c all

Step-Counts : {n : ℕ} {m m' : Machine} → Step n m m' → AllCount m → AllCount m'
Step-Counts {m = m} (plain v i lt h) c =
    let t = m.threads i in put-Counts m i _ c (code-Counts v (view m.memory t.buffer) t.core (c i))
Step-Counts {m = m} (store v i s lt h) c =
    let t = m.threads i in put-Counts m i _ c (code-Counts v (view m.memory t.buffer) t.core (c i))
Step-Counts {m = m} (locked v i lt h e) c =
    let t = m.threads i in put-Counts m i _ c (code-Counts v (view m.memory t.buffer) t.core (c i))
Step-Counts {m = m} (drain i s ss lt e) c = put-Counts m i _ c (c i)

Reach-Counts : {n : ℕ} {m : Machine} → Reach n m → AllCount m
Reach-Counts start j = refl
Reach-Counts (later r st) j = Step-Counts st (Reach-Counts r) j

Reach-Apart :
    (n : ℕ) (m : Machine) → n < 2 ^ 31 → Reach n m → Apart n (calls_of delayed_calls m.threads)
Reach-Apart n m small r i p j q =
    let f = Reach-Finished n small r i p in
    let s : Defs.System = record { barrier = f.barrier; threads = f.threads } in
    omega (
      arith,
      Inv-Apart n s (Reach-Inv (omega arith) small f.reached) i p j q,
      f.behind j q,
      ap (λ (t : Defs.Thread). t.left) f.finished,
    )

Step-Spec :
    (n : ℕ) {m m' : Machine}
    → Step n m m'
    → AllCount m
    → Apart n (calls_of delayed_calls m'.threads)
    → Spec.Reach n (calls_of delayed_calls m.threads)
    → Spec.Reach n (calls_of delayed_calls m'.threads)
Step-Spec n {m} (plain v i lt h) c apart r =
    let t = m.threads i in
    Moves-Reach_calls delayed_calls n m.threads i _ r lt
      (code-Moves v (view m.memory t.buffer) t.core (c i)) apart
Step-Spec n {m} (store v i s lt h) c apart r =
    let t = m.threads i in
    Moves-Reach_calls delayed_calls n m.threads i _ r lt
      (code-Moves v (view m.memory t.buffer) t.core (c i)) apart
Step-Spec n {m} (locked v i lt h e) c apart r =
    let t = m.threads i in
    Moves-Reach_calls delayed_calls n m.threads i _ r lt
      (code-Moves v (view m.memory t.buffer) t.core (c i)) apart
Step-Spec n {m} (drain i s ss lt e) c apart r =
    Moves-Reach_calls delayed_calls n m.threads i _ r lt (inl refl) apart

-- Whatever the interleaving of `n` threads, fewer than 2 ^ 31, and of their store buffers, and
-- whichever variants of the barrier they call, their arrivals and departures are those of an
-- abstract barrier: a thread leaves a call only when all `n` have arrived at it.
pub delayed_calls-Reach :
    (n : ℕ) (m : Machine) → n < 2 ^ 31 → Reach n m → Spec.Reach n (calls_of delayed_calls m.threads)
delayed_calls-Reach n m small start = Spec.start
delayed_calls-Reach n m small (later {m = m0} r st) =
    Step-Spec n st (Reach-Counts r) (Reach-Apart n m small (later r st))
      (delayed_calls-Reach n m0 small r)
