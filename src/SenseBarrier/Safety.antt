-- ===== src/SenseBarrier/Safety.antt =====
-- Every reachable state is in some phase of some round, and what follows for the threads.
use htsynch.Base.{
  ℕ, ◌+◌, ◌^◌, ◌≤◌, ◌<◌, ◌≡◌, refl, ap, ◌∙◌, inl, inr, arith, ℕ_discrete, total, total-le,
  total-update, full-total, Every, Every-update,
}
use htsynch.SenseBarrier.Defs.{
  SpinBarrier, Thread, spin_barrier_lsense, System, init, turn, Reach, start, later,
}
use htsynch.SenseBarrier.Invariant.{
  sense, Gather, Full, Close, here, here-le, Gather-step_at, Full-step_at, Close-step_at,
  Full-of-Gather, Close-of-Full, Gather-of-Close,
}

pub data Phase (n : ℕ) (s : System) : Type 0 where
  gather :
      (r : ℕ)
      → s.barrier.release_flag ≡ sense r
      → Every n (Gather r) s.threads
      → s.barrier.current_count ≤ total (here r) n s.threads
      → total (here r) n s.threads < n
      → Phase n s
  full : (r : ℕ) → s.barrier.release_flag ≡ sense r → Every n (Full r) s.threads → Phase n s
  close :
      (r : ℕ)
      → s.barrier.release_flag ≡ sense r
      → Every n (Close r) s.threads
      → s.barrier.current_count ≡ 0
      → Phase n s

pub record Inv (n : ℕ) (s : System) : Type 0 where
  pub size : s.barrier.nthreads ≡ n
  pub phase : Phase n s

-- Once nobody is late the round is gathering, or full if all have arrived.
settle :
    (n r : ℕ) (s : System)
    → s.barrier.nthreads ≡ n
    → s.barrier.release_flag ≡ sense r
    → Every n (Gather r) s.threads
    → s.barrier.current_count ≤ total (here r) n s.threads
    → Inv n s
settle n r s size flag all count = elim (ℕ_discrete (total (here r) n s.threads) n) [
  | yes e ↦ record {
    size = size;
    phase = full r flag (λ j p.
        Full-of-Gather r (s.threads j) (all j p)
          (full-total (here r) (here-le r) n s.threads e j p));
  }
  | no ne ↦ record {
    size = size;
    phase = gather r flag all count (omega (arith, total-le (here r) (here-le r) n s.threads));
  }
]

module _ (n : ℕ) (small : n < 2 ^ 31) (s : System) (size : s.barrier.nthreads ≡ n) (i : ℕ)
    (lt : i < n) (r : ℕ) (flag : s.barrier.release_flag ≡ sense r) where
  abbrev t : Thread
  t = s.threads i

  abbrev s' : System
  s' = turn s i

  from_Gather :
      Every n (Gather r) s.threads
      → s.barrier.current_count ≤ total (here r) n s.threads
      → total (here r) n s.threads < n
      → Inv n s'
  from_Gather all count few =
      let (g, flag', count', size') =
        Gather-step_at n r s.barrier size small flag t.pc t.lsense t.arrived t.left
          (total (here r) n s.threads) (total (here r) n s'.threads) (all i lt) count few
          (total-update (here r) n s.threads i (spin_barrier_lsense s.barrier t).1 lt) in
      settle n r s' size' flag' (Every-update n (Gather r) s.threads i _ g all) count'

  from_Full : Every n (Full r) s.threads → Inv n s'
  from_Full all =
      elim (Full-step_at n r s.barrier size small flag t.pc t.lsense t.arrived t.left (all i lt)) [
        | inl (f, same) ↦ record {
          size = ap (λ (b : SpinBarrier). b.nthreads) same ∙ size;
          phase =
              full r (ap (λ (b : SpinBarrier). b.release_flag) same ∙ flag)
                (Every-update n (Full r) s.threads i _ f all);
        }
        | inr (c, flag', count', size') ↦ record {
          size = size';
          phase =
              close r flag'
                (Every-update n (Close r) s.threads i _ c
                  (λ j p. Close-of-Full r (s.threads j) (all j p)))
                count';
        }
      ]

  from_Close : Every n (Close r) s.threads → s.barrier.current_count ≡ 0 → Inv n s'
  from_Close all zero_count =
      let (count', size', next) =
        Close-step_at n r s.barrier size small flag t.pc t.lsense t.arrived t.left (all i lt)
          zero_count (omega arith) in
      elim next [
        | inl (c, flag') ↦ record {
          size = size';
          phase = close r flag' (Every-update n (Close r) s.threads i _ c all) count';
        }
        | inr (g, flag') ↦
            settle n (r + 1) s' size' flag'
              (Every-update n (Gather (r + 1)) s.threads i _ g
                (λ j p. Gather-of-Close r (s.threads j) (all j p)))
              (omega (arith, count'))
      ]

turn-Inv : {n : ℕ} {s : System} → n < 2 ^ 31 → Inv n s → (i : ℕ) → i < n → Inv n (turn s i)
turn-Inv {n} {s} small inv i lt = elim inv.phase [
  | gather r flag all count few ↦ from_Gather n small s inv.size i lt r flag all count few
  | full r flag all ↦ from_Full n small s inv.size i lt r flag all
  | close r flag all count ↦ from_Close n small s inv.size i lt r flag all count
]

init-Inv : {n : ℕ} → Inv n (init n)
init-Inv {n} = settle n 0 (init n) refl refl (λ i p. (refl, refl, refl)) (omega arith)

pub Reach-Inv : {n : ℕ} {s : System} → n < 2 ^ 31 → Reach n (init n) s → Inv n s
Reach-Inv small start = init-Inv
Reach-Inv small (later r i lt) = turn-Inv small (Reach-Inv small r) i lt

-- How far a thread can be in round `r` of each phase.
record Near (r : ℕ) (t : Thread) : Type 0 where
  reached : r ≤ t.arrived
  arrived_le : t.arrived ≤ r + 1
  left_le : t.left ≤ r
  near : r ≤ t.left + 1

Every-Near : {n : ℕ} {s : System} → Inv n s → (r : ℕ) × Every n (Near r) s.threads
Every-Near {n} {s} inv = elim inv.phase [
  | gather r flag all count few ↦ (r, λ i p. let g = all i p in ground arith)
  | full r flag all ↦ (r, λ i p. let g = all i p in ground arith)
  | close r flag all count ↦ (r, λ i p. let g = all i p in ground arith)
]

-- Whatever the interleaving of fewer than 2 ^ 31 threads, none of them has returned from more calls
-- of `spin_barrier_lsense` than every other thread has arrived at, and none is more than one
-- arrival ahead of another.
pub left-le-arrived :
    (n : ℕ) (s : System)
    → n < 2 ^ 31
    → Reach n (init n) s
    → (i j : ℕ) → i < n
    → j < n
    → ((s.threads i).left ≤ (s.threads j).arrived)
      × ((s.threads i).arrived ≤ (s.threads j).arrived + 1)
left-le-arrived n s small reach i j p q =
    let (r, all) = Every-Near (Reach-Inv small reach) in
    let a = all i p in let b = all j q in omega arith
