-- ===== src/LockedBarrier/Progress.antt =====
-- What the invariant gives: the count has one thread at a time, and no deadlock.
use htsynch.Base.{
  ℕ, ◌+◌, ◌^◌, ◌<◌, ◌≡◌, ◌≢◌, ◌⊎◌, arith, ◌==◌, true, false, total-pos, total-lt, dec_lt, inl, inr,
  refl,
}
use htsynch.LockedBarrier.Defs.{
  SpinBarrier, outside, spin, count, compare, reset, waiting, calling, looping, Thread, released,
  System, Reach, sign_extend,
}
use htsynch.LockedBarrier.Invariant.{sense, owns, Gather, here}
use htsynch.LockedBarrier.Safety.{gather, full, Reach-Inv, others_quiet}

-- While a thread is at the increment of the count, which is no atomic instruction, no other thread
-- is at an access to the count.
pub counting_alone :
    (n : ℕ) (s : System)
    → 0 < n
    → n < 2 ^ 31
    → Reach n s
    → (i j : ℕ) → i < n
    → j < n
    → i ≢ j
    → (s.threads i).pc ≡ count
    → ((s.threads j).pc ≢ count) × ((s.threads j).pc ≢ compare) × ((s.threads j).pc ≢ reset)
counting_alone n s pos small reach i j p q ne at_count =
    let inv = Reach-Inv pos small reach in
    let quiet =
      others_quiet n s.threads i j (omega (arith, inv.held, inv.single)) p q (rw at_count refl)
        ne in
    ground (arith, quiet)

-- A thread that its own steps cannot get past, whatever system calls return: in the loop of
-- `spin_lock` with the lock taken, or in the waiting loop with the flag not at its sense.
abbrev pub Blocked : SpinBarrier → Thread → Type 0
Blocked sb t =
    ((t.pc ≡ spin) × ((sb.lock == 0) ≡ false))
    ⊎ (((t.pc ≡ waiting) ⊎ (t.pc ≡ calling) ⊎ (t.pc ≡ looping)) × (released sb t ≡ false))

-- A thread in the system call of a halting variant, though the flag is at its sense.
abbrev pub Unwoken : SpinBarrier → Thread → Type 0
Unwoken sb t = (t.pc ≡ calling) × (released sb t ≡ true)

-- A thread that makes no progress: it is blocked, or the call that halts has not returned, or it has
-- not begun.
abbrev pub Idle : SpinBarrier → Thread → Type 0
Idle sb t = Blocked sb t ⊎ Unwoken sb t ⊎ (t.pc ≡ outside)

-- A thread that owns the lock does.
owner_moves : (sb : SpinBarrier) (t : Thread) → 0 < owns t → Idle sb t → ⊥
owner_moves sb t o (inl b) = ground arith
owner_moves sb t o (inr b) = ground arith

Blocked-here :
    (sb : SpinBarrier) (r : ℕ) (t : Thread)
    → sb.lock ≡ 0
    → sb.release_flag ≡ sign_extend (sense r)
    → Gather r t
    → Blocked sb t
    → t.arrived ≡ r + 1
Blocked-here sb r t free flag g b = ground arith

-- A thread that has not arrived is before its call or still in the last one.
missing-here :
    (sb : SpinBarrier) (r : ℕ) (t : Thread)
    → sb.lock ≡ 0
    → sb.release_flag ≡ sign_extend (sense r)
    → Gather r t
    → here r t ≡ 0
    → Idle sb t
    → (Unwoken sb t ⊎ (t.pc ≡ outside)) × (t.arrived ≡ r)
missing-here sb r t free flag g h (inl b) = ground arith
missing-here sb r t free flag g h (inr (inl u)) = (inl u, ground arith)
missing-here sb r t free flag g h (inr (inr o)) = (inr o, ground arith)

-- In any run of fewer than 2 ^ 31 threads, whichever variants they call: when every thread is
-- blocked, or outside the barrier, or in a halting call that has not returned though the flag is
-- set, a blocked thread has arrived at a call that a thread of the other two kinds has not arrived
-- at; so not all are blocked.
pub Blocked-arrived :
    (n : ℕ) (s : System)
    → n < 2 ^ 31
    → Reach n s
    → ((j : ℕ) → j < n → Idle s.barrier (s.threads j))
    → (i : ℕ) → i < n
    → Blocked s.barrier (s.threads i)
    → (j : ℕ) × (j < n)
      × (Unwoken s.barrier (s.threads j) ⊎ ((s.threads j).pc ≡ outside))
      × ((s.threads i).arrived ≡ (s.threads j).arrived + 1)
Blocked-arrived n s small reach idle i p b =
    let inv = Reach-Inv (omega arith) small reach in
    elim (dec_lt 0 s.barrier.lock) [
      | yes taken ↦
          let (k, q, o) = total-pos owns n s.threads (omega (arith, inv.held)) in
          absurd (owner_moves s.barrier (s.threads k) o (idle k q))
      | no free ↦ elim inv.phase [
        | gather r flag all counted few ↦
            let zero_lock : s.barrier.lock ≡ 0 = omega arith in
            let (j, q, missing) = total-lt (here r) n s.threads few in
            let (late, behind) =
              missing-here s.barrier r (s.threads j) zero_lock flag (all j q) missing (idle j q) in
            (
              j,
              q,
              late,
              omega (
                arith,
                Blocked-here s.barrier r (s.threads i) zero_lock flag (all i p) b,
                behind,
              ),
            )
        | full r flag all busy ↦ absurd (omega arith)
      ]
    ]
