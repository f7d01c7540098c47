-- ===== src/Barrier/Buffered.antt =====
-- `spin_barrier_lsense` of synch.h keeps the promise of a barrier behind store buffers too.
use htsynch.Base.{ℕ, ◌^◌, ◌<◌, refl, arith, inl, List, [], ◌∷◌, ◌++◌, update-all}
use htsynch.Barrier.Spec
use htsynch.Barrier.Spec.{Calls, calls_of, Apart, Moves, Moves-Reach_calls}
use htsynch.SenseBarrier.Defs
use htsynch.SenseBarrier.Defs.{SpinBarrier, Pc, spin_barrier_lsense, outside}
use htsynch.SenseBarrier.Counts.{Counts, act-Counts}
use htsynch.SenseBarrier.Buffers.{
  Store, Thread, Machine, core_after, view, Step, plain, store, locked, drain, Reach, start, later,
}
use htsynch.SenseBarrier.Buffered.{buffered-left-le-arrived}

abbrev pub buffered_calls : Thread → Calls
buffered_calls t = record { arrived = t.core.arrived; left = t.core.left }

core_after-Counts : (b : SpinBarrier) (t : Thread) → Counts t.core → Counts (core_after b t)
core_after-Counts b t c =
    let d = t.core in act-Counts d.pc (view b t.buffer) d.lsense d.arrived d.left c

act-Moves :
    (p : Pc) (b : SpinBarrier) (lsense arrived left : ℕ)
    → let t : Defs.Thread = record { pc = p; lsense = lsense; arrived = arrived; left = left } in
      let t' = (spin_barrier_lsense b t).1 in
      Counts t
      → Moves
          (record { arrived = t.arrived; left = t.left })
          (record { arrived = t'.arrived; left = t'.left })
unfolding spin_barrier_lsense
act-Moves outside b lsense arrived left c = ground arith
act-Moves p b lsense arrived left c = ground arith

core_after-Moves :
    (b : SpinBarrier) (t : Thread) (buffer : List Store)
    → Counts t.core
    → Moves (buffered_calls t) (buffered_calls (record { core = core_after b t; buffer = buffer }))
core_after-Moves b t buffer c =
    let d = t.core in act-Moves d.pc (view b t.buffer) d.lsense d.arrived d.left c

abbrev AllCount : Machine → Type 0
AllCount m = (j : ℕ) → Counts (m.threads j).core

Step-Counts : {n : ℕ} {m m' : Machine} → Step n m m' → AllCount m → AllCount m'
Step-Counts {m = m} (plain i lt h) c =
    update-all (λ (t : Thread). Counts t.core) m.threads i
      (core_after-Counts m.memory (m.threads i) (c i)) c
Step-Counts {m = m} (store i s lt h) c =
    update-all (λ (t : Thread). Counts t.core) m.threads i
      (core_after-Counts m.memory (m.threads i) (c i)) c
Step-Counts {m = m} (locked i lt h e) c =
    update-all (λ (t : Thread). Counts t.core) m.threads i
      (core_after-Counts m.memory (m.threads i) (c i)) c
Step-Counts {m = m} (drain i s ss lt e) c =
    update-all (λ (t : Thread). Counts t.core) m.threads i (c i) c

Reach-Counts : {n : ℕ} {m : Machine} → Reach n m → AllCount m
Reach-Counts start j = refl
Reach-Counts (later r st) j = Step-Counts st (Reach-Counts r) j

Reach-Apart :
    (n : ℕ) (m : Machine) → n < 2 ^ 31 → Reach n m → Apart n (calls_of buffered_calls m.threads)
Reach-Apart n m small r i p j q = (buffered-left-le-arrived n m small r i j p q).0

Step-Spec :
    (n : ℕ) {m m' : Machine}
    → Step n m m'
    → AllCount m
    → Apart n (calls_of buffered_calls m'.threads)
    → Spec.Reach n (calls_of buffered_calls m.threads)
    → Spec.Reach n (calls_of buffered_calls m'.threads)
Step-Spec n {m} (plain i lt h) c apart r =
    Moves-Reach_calls buffered_calls n m.threads i _ r lt
      (core_after-Moves m.memory (m.threads i) (m.threads i).buffer (c i)) apart
Step-Spec n {m} (store i s lt h) c apart r =
    Moves-Reach_calls buffered_calls n m.threads i _ r lt
      (core_after-Moves m.memory (m.threads i) ((m.threads i).buffer ++ s ∷ []) (c i)) apart
Step-Spec n {m} (locked i lt h e) c apart r =
    Moves-Reach_calls buffered_calls n m.threads i _ r lt
      (core_after-Moves m.memory (m.threads i) (m.threads i).buffer (c i)) apart
Step-Spec n {m} (drain i s ss lt e) c apart r =
    Moves-Reach_calls buffered_calls n m.threads i _ r lt (inl refl) apart

-- Whatever the interleaving of `n` threads, fewer than 2 ^ 31, and of their store buffers, the
-- arrivals and departures are those of an abstract barrier: a thread leaves a call of
-- `spin_barrier_lsense` only when all `n` have arrived at it.
pub buffered_calls-Reach :
    (n : ℕ) (m : Machine)
    → n < 2 ^ 31
    → Reach n m
    → Spec.Reach n (calls_of buffered_calls m.threads)
buffered_calls-Reach n m small start = Spec.start
buffered_calls-Reach n m small (later {m = m0} r st) =
    Step-Spec n st (Reach-Counts r) (Reach-Apart n m small (later r st))
      (buffered_calls-Reach n m0 small r)
