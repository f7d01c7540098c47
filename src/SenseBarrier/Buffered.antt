-- ===== src/SenseBarrier/Buffered.antt =====
-- Store buffers do not let a thread through `spin_barrier_lsense` early: every run with buffers has a
-- run without them that no thread is far ahead of.
use htsynch.Base.{
  ℕ, zero, suc, ◌+◌, ◌^◌, ◌<◌, ◌≤◌, ◌≡◌, refl, ap, ◌∙◌, [], ◌∷◌, ◌++◌, arith, ℕ_discrete, update,
}
use mathlib.Core.Path.{subst}
use htsynch.Base.Moved.{Moved, unmoved, Moved-step, Moved-all}
use htsynch.SenseBarrier.Defs
use htsynch.SenseBarrier.Defs.{SpinBarrier, spin_barrier_lsense, System}
use htsynch.SenseBarrier.Safety.{left-le-arrived}
use htsynch.SenseBarrier.Buffers.{
  apply, Thread, Machine, put, core_after, Step, plain, store, locked, drain, Reach, start, later,
}
use htsynch.SenseBarrier.Ahead.{
  Ahead, goes, Follows, same, plain-Ahead, store-Ahead, locked-Ahead, drain-Ahead, Ahead-arrived,
  Ahead-left,
}

-- A reachable state without buffers.
abbrev Serially : ℕ → SpinBarrier → (ℕ → Defs.Thread) → Type 0
Serially n b f = Defs.Reach n (Defs.init n) (record { barrier = b; threads = f })

-- All steps of a thread are of one kind.
abbrev step : Unit {0} → SpinBarrier → Defs.Thread → SpinBarrier × Defs.Thread
step _ = spin_barrier_lsense

module _ (n : ℕ) where
  closed :
      (b : SpinBarrier) (f : ℕ → Defs.Thread) (v : Unit {0}) (i : ℕ)
      → i < n
      → Serially n b f
      → Serially n (step v b (f i)).0 (update f i (step v b (f i)).1)
  closed b f v i lt r = Defs.later r i lt

  abbrev MovedTo : (ℕ → Defs.Thread) → ℕ → SpinBarrier → Defs.Thread → Type 0
  MovedTo = Moved (Serially n)

  Moved-goes :
      (k : ℕ) (f : ℕ → Defs.Thread) (i : ℕ) (b : SpinBarrier) (c : Defs.Thread)
      → i < n
      → MovedTo f i b c
      → MovedTo f i (goes k b c).0 (goes k b c).1
  Moved-goes zero f i b c lt m = m
  Moved-goes (suc k) f i b c lt m =
      let r = spin_barrier_lsense b c in
      Moved-goes k f i r.0 r.1 lt (Moved-step (Serially n) step n closed f i b c tt lt m)

  -- A run without buffers that agrees with a machine.
  record Serial (m : Machine) : Type 0 where
    at : ℕ → Defs.Thread
    reached : Serially n m.memory at
    aheads : (j : ℕ) → Ahead (at j) (m.threads j).core (m.threads j).buffer

  from_Serial : (m : Machine) (s : Serial m) (i : ℕ) → MovedTo s.at i m.memory (s.at i)
  from_Serial m s i = unmoved (Serially n) m.memory s.at i s.reached

  put-Serial :
      (m : Machine) (s : Serial m) (i : ℕ) (b : SpinBarrier) (t : Thread)
      → i < n
      → Follows m.memory (s.at i) b t.core t.buffer
      → Serial (put i t b m)
  put-Serial m s i b t lt (k, e, h) =
      let a' = (goes k m.memory (s.at i)).1 in
      let v : MovedTo s.at i b a' =
        subst (λ x. MovedTo s.at i x a') e
          (Moved-goes k s.at i m.memory (s.at i) lt (from_Serial m s i)) in
      record {
        at = v.threads;
        reached = v.reached;
        aheads =
            Moved-all (Serially n)
              (λ (j : ℕ) (a : Defs.Thread) (u : Thread). Ahead a u.core u.buffer) s.at m.threads i b
              a' t v h (λ j ne. s.aheads j);
      }

  Step-Serial : {m m' : Machine} → Step n m m' → Serial m → Serial m'
  Step-Serial {m} (plain i lt h) s =
      let t = m.threads i in
      put-Serial m s i m.memory (record t { core = core_after m.memory t }) lt
        (plain-Ahead m.memory (s.at i) t.core t.buffer (s.aheads i) h)
  Step-Serial {m} (store i v lt h) s =
      let t = m.threads i in
      put-Serial m s i m.memory
        (record { core = core_after m.memory t; buffer = t.buffer ++ v ∷ [] }) lt
        (store-Ahead m.memory (s.at i) t.core t.buffer v (s.aheads i) h)
  Step-Serial {m} (locked i lt h e) s =
      let t = m.threads i in
      put-Serial m s i (spin_barrier_lsense m.memory t.core).0
        (record t { core = core_after m.memory t }) lt
        (locked-Ahead m.memory (s.at i) t.core t.buffer (s.aheads i) h e)
  Step-Serial {m} (drain i v vs lt e) s =
      let t = m.threads i in
      put-Serial m s i (apply v m.memory) (record t { buffer = vs }) lt
        (drain-Ahead m.memory (s.at i) t.core t.buffer v vs (s.aheads i) e)

  Reach-Serial : {m : Machine} → Reach n m → Serial m
  Reach-Serial start = record {
    at = (Defs.init n).threads;
    reached = Defs.start;
    aheads = λ j. same refl refl;
  }
  Reach-Serial (later r st) = Step-Serial st (Reach-Serial r)

  -- Steps of thread `i` that count no arrival.
  Moved-arrived :
      (f : ℕ → Defs.Thread) (i : ℕ) (b : SpinBarrier) (c : Defs.Thread) (v : MovedTo f i b c)
      (j : ℕ)
      → c.arrived ≡ (f i).arrived
      → (v.threads j).arrived ≡ (f j).arrived
  Moved-arrived f i b c v j e = elim (ℕ_discrete i j) [
    | yes eq ↦
        subst (λ x. (v.threads x).arrived ≡ (f x).arrived) eq
          (ap (λ (t : Defs.Thread). t.arrived) v.at_thread ∙ e)
    | no ne ↦ ap (λ (t : Defs.Thread). t.arrived) (v.others j ne)
  ]

-- Whatever the interleaving of fewer than 2 ^ 31 threads and their store buffers, none of them has
-- returned from more calls of `spin_barrier_lsense` than every other thread has arrived at, and none
-- is more than one arrival ahead of another.
pub buffered-left-le-arrived :
    (n : ℕ) (m : Machine)
    → n < 2 ^ 31
    → Reach n m
    → (i j : ℕ) → i < n
    → j < n
    → ((m.threads i).core.left ≤ (m.threads j).core.arrived)
      × ((m.threads i).core.arrived ≤ (m.threads j).core.arrived + 1)
buffered-left-le-arrived n m small reach i j p q =
    let s = Reach-Serial n reach in
    let (k, left, arrived) = Ahead-left m.memory (s.at i) _ _ (s.aheads i) in
    let v = Moved-goes n k s.at i m.memory (s.at i) p (from_Serial n m s i) in
    let at_i = Ahead-arrived _ _ _ (s.aheads i) in
    let at_j = Ahead-arrived _ _ _ (s.aheads j) in
    let same_j = Moved-arrived n s.at i _ _ v j arrived in
    let left_i = ap (λ (t : Defs.Thread). t.left) v.at_thread ∙ left in
    let after : System = record { barrier = _; threads = v.threads } in
    let before : System = record { barrier = m.memory; threads = s.at } in
    let early = left-le-arrived n after small v.reached i j p q in
    let near = left-le-arrived n before small s.reached i j p q in (omega arith, omega arith)
