-- ===== src/SenseBarrier/Invariant.antt =====
-- The three phases of a round, and that every step stays in one or goes on to the next.
use htsynch.Base.{ℕ, ◌+◌, ◌%◌, ◌^◌, ◌≤◌, ◌<◌, ◌≡◌, ◌⊎◌, arith, ◌==◌, if◌then◌else◌}
use htsynch.SenseBarrier.Defs.{
  SpinBarrier, Pc, outside, flipped, counted, last, publish, waiting, Thread, spin_barrier_lsense,
}

-- The value of `release_flag` once `r` rounds are complete, and of `lsense` in round `r`.
abbrev pub sense : ℕ → ℕ
sense r = (r + 1) % 2

-- Inside call number `r`: arrived there and not left.
abbrev pub Inside : ℕ → Thread → Type 0
Inside r t = (t.arrived ≡ r) × (t.left + 1 ≡ r) × (t.lsense ≡ sense r)

abbrev GatherAt : ℕ → Pc → Thread → Type 0
GatherAt r outside t = (t.arrived ≡ r) × (t.left ≡ r) × (t.lsense ≡ sense r)
GatherAt r flipped t = (t.arrived ≡ r) × (t.left ≡ r) × (t.lsense ≡ sense (r + 1))
GatherAt r counted t = Inside r t ⊎ Inside (r + 1) t
GatherAt r waiting t = Inside r t ⊎ Inside (r + 1) t
GatherAt r last t = Inside r t
GatherAt r publish t = Inside r t

-- Round `r` is complete and round `r + 1` not: a thread may be late in `r`.
abbrev pub Gather : ℕ → Thread → Type 0
Gather r t = GatherAt r t.pc t

-- All have arrived at round `r + 1` and none has reset the count.
abbrev FullAt : ℕ → Pc → Thread → Type 0
FullAt r counted t = Inside (r + 1) t
FullAt r waiting t = Inside (r + 1) t
FullAt r last t = Inside (r + 1) t
FullAt r _ t = ⊥

abbrev pub Full : ℕ → Thread → Type 0
Full r t = FullAt r t.pc t

-- The count is reset and the flag not set.
abbrev CloseAt : ℕ → Pc → Thread → Type 0
CloseAt r outside t = ⊥
CloseAt r flipped t = ⊥
CloseAt r _ t = Inside (r + 1) t

abbrev pub Close : ℕ → Thread → Type 0
Close r t = CloseAt r t.pc t

-- Has the thread arrived at round `r + 1`?
abbrev pub here : ℕ → Thread → ℕ
here r t = if t.arrived == r + 1 then 1 else 0

module _ (n r : ℕ) (sb : SpinBarrier) (size : sb.nthreads ≡ n) (small : n < 2 ^ 31)
    (flag : sb.release_flag ≡ sense r) where
  abbrev pub after : Thread → SpinBarrier × Thread
  after t = spin_barrier_lsense sb t

  pub Gather-step_at :
      (p : Pc) (lsense arrived left c c' : ℕ)
      → let t : Thread = record { pc = p; lsense = lsense; arrived = arrived; left = left } in
        Gather r t
        → sb.current_count ≤ c
        → c < n
        → c' + here r t ≡ c + here r (after t).1
        → Gather r (after t).1
          × ((after t).0.release_flag ≡ sense r)
          × ((after t).0.current_count ≤ c')
          × ((after t).0.nthreads ≡ n)
  unfolding spin_barrier_lsense
  Gather-step_at outside lsense arrived left c c' g le lt e = ground arith
  Gather-step_at p lsense arrived left c c' g le lt e = ground arith

  pub Full-step_at :
      (p : Pc) (lsense arrived left : ℕ)
      → let t : Thread = record { pc = p; lsense = lsense; arrived = arrived; left = left } in
        Full r t
        → (Full r (after t).1 × ((after t).0 ≡ sb))
          ⊎ (Close r (after t).1
              × ((after t).0.release_flag ≡ sense r)
              × ((after t).0.current_count ≡ 0)
              × ((after t).0.nthreads ≡ n))
  unfolding spin_barrier_lsense
  Full-step_at outside lsense arrived left f = ground arith
  Full-step_at p lsense arrived left f = ground arith

  pub Close-step_at :
      (p : Pc) (lsense arrived left : ℕ)
      → let t : Thread = record { pc = p; lsense = lsense; arrived = arrived; left = left } in
        Close r t
        → sb.current_count ≡ 0
        → 0 < n
        → ((after t).0.current_count ≡ 0)
          × ((after t).0.nthreads ≡ n)
          × ((Close r (after t).1 × ((after t).0.release_flag ≡ sense r))
              ⊎ (Gather (r + 1) (after t).1 × ((after t).0.release_flag ≡ sense (r + 1))))
  unfolding spin_barrier_lsense
  Close-step_at outside lsense arrived left f e pos = ground arith
  Close-step_at p lsense arrived left f e pos = ground arith

pub Full-of-Gather : (r : ℕ) (t : Thread) → Gather r t → here r t ≡ 1 → Full r t
Full-of-Gather r t g h = ground arith

pub Close-of-Full : (r : ℕ) (t : Thread) → Full r t → Close r t
Close-of-Full r t h = ground arith

pub Gather-of-Close : (r : ℕ) (t : Thread) → Close r t → Gather (r + 1) t
Gather-of-Close r t h = ground arith

pub here-le : (r : ℕ) (t : Thread) → here r t ≤ 1
here-le r t = ground arith
