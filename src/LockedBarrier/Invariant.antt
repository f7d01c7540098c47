-- ===== src/LockedBarrier/Invariant.antt =====
-- The phases of a round, and that every step stays in one or goes on to the next.
use htsynch.Base.{ℕ, ◌+◌, ◌*◌, ◌%◌, ◌^◌, ◌≤◌, ◌<◌, ◌≡◌, ◌⊎◌, arith, ◌==◌, if◌then◌else◌, Bool}
use htsynch.LockedBarrier.Defs.{
  SpinBarrier, Pc, outside, try, spin, count, compare, reset, publish, unlock, waiting, calling,
  looping, Thread, sign_extend, act_at,
}

-- The value of `lsense` in round `r`, and, as a `long`, of `release_flag` once `r` rounds are
-- complete.
abbrev pub sense : ℕ → ℕ
sense r = r % 2 * 4294967295

-- Between `spin_lock` and the store of `spin_unlock`.
abbrev pub owns_at : Pc → ℕ
owns_at count = 1
owns_at compare = 1
owns_at reset = 1
owns_at publish = 1
owns_at unlock = 1
owns_at _ = 0

abbrev pub owns : Thread → ℕ
owns t = owns_at t.pc

-- Inside call number `r`: arrived there and not left.
abbrev pub Inside : ℕ → Thread → Type 0
Inside r t = (t.arrived ≡ r) × (t.left + 1 ≡ r) × (t.lsense ≡ sense r)

-- Before call number `r + 1`, or in it and not arrived.
abbrev pub Before : ℕ → ℕ → Thread → Type 0
Before r value t = (t.arrived ≡ r) × (t.left ≡ r) × (t.lsense ≡ sense value)

abbrev pub GatherAt : ℕ → Pc → Thread → Type 0
GatherAt r outside t = Before r r t
GatherAt r try t = Before r (r + 1) t
GatherAt r spin t = Before r (r + 1) t
GatherAt r count t = Before r (r + 1) t
GatherAt r compare t = Inside (r + 1) t
GatherAt r unlock t = Inside r t ⊎ Inside (r + 1) t
GatherAt r waiting t = Inside r t ⊎ Inside (r + 1) t
GatherAt r calling t = Inside r t ⊎ Inside (r + 1) t
GatherAt r looping t = Inside r t ⊎ Inside (r + 1) t
GatherAt r _ t = ⊥

-- Round `r` is complete and round `r + 1` not: a thread may be late in `r`.
abbrev pub Gather : ℕ → Thread → Type 0
Gather r t = GatherAt r t.pc t

abbrev pub FullAt : ℕ → ℕ → ℕ → Pc → Thread → Type 0
FullAt n r c compare t = Inside (r + 1) t × (c ≡ n)
FullAt n r c reset t = Inside (r + 1) t × (c ≡ n)
FullAt n r c publish t = Inside (r + 1) t × (c ≡ 0)
FullAt n r c waiting t = Inside (r + 1) t
FullAt n r c calling t = Inside (r + 1) t
FullAt n r c looping t = Inside (r + 1) t
FullAt n r c _ t = ⊥

-- All `n` have arrived at round `r + 1`, the flag is not set, and `c` is the count.
abbrev pub Full : ℕ → ℕ → ℕ → Thread → Type 0
Full n r c t = FullAt n r c t.pc t

-- Has the thread arrived at round `r + 1`?
abbrev pub here : ℕ → Thread → ℕ
here r t = if t.arrived == r + 1 then 1 else 0

pub here-le : (r : ℕ) (t : Thread) → here r t ≤ 1
here-le r t = ground arith

module _ (halts counts : Bool) (sb : SpinBarrier) (lsense rounds arrived left : ℕ) where
  abbrev at : Pc → Thread
  at p = record { pc = p; lsense = lsense; rounds = rounds; arrived = arrived; left = left }

  abbrev after : Pc → SpinBarrier × Thread
  after p = act_at halts counts p sb (at p)

  -- The lock is taken just if a thread owns it.
  pub owns-act_at :
      (p : Pc) (o o' : ℕ)
      → sb.lock ≡ o
      → o ≤ 1
      → owns_at p ≤ o
      → o' + owns_at p ≡ o + owns (after p).1
      → ((after p).0.lock ≡ o') × (o' ≤ 1)
  owns-act_at outside o o' e small mine sum = ground arith
  owns-act_at p o o' e small mine sum = ground arith

  module _ (n r : ℕ) (size : sb.total ≡ n) (small : n < 2 ^ 31)
      (flag : sb.release_flag ≡ sign_extend (sense r)) where
    pub Gather-act_at :
        (p : Pc) (c c' : ℕ)
        → Gather r (at p)
        → sb.current_count ≡ c
        → c < n
        → c' + here r (at p) ≡ c + here r (after p).1
        → Gather r (after p).1
          × ((after p).0.release_flag ≡ sign_extend (sense r))
          × ((after p).0.current_count ≡ c')
          × ((after p).0.total ≡ n)
          × (c' ≡ n → (after p).1.pc ≡ compare)
    Gather-act_at outside c c' g e lt sum = ground arith
    Gather-act_at p c c' g e lt sum = ground arith

    abbrev Stays : Pc → Type 0
    Stays p =
        Full n r (after p).0.current_count (after p).1
        × ((after p).0.release_flag ≡ sign_extend (sense r))
        × ((after p).0.total ≡ n)
        × ((after p).0.lock ≡ sb.lock)
        × ((owns_at p ≡ 1) ⊎ ((after p).0.current_count ≡ sb.current_count))

    abbrev Releases : Pc → Type 0
    Releases p =
        (owns_at p ≡ 1)
        × Gather (r + 1) (after p).1
        × ((after p).0.release_flag ≡ sign_extend (sense (r + 1)))
        × ((after p).0.current_count ≡ 0)
        × ((after p).0.total ≡ n)
        × ((after p).1.arrived ≡ r + 1)

    pub Full-act_at : (p : Pc) → Full n r sb.current_count (at p) → Stays p ⊎ Releases p
    Full-act_at outside f = ground arith
    Full-act_at p f = ground arith

-- The others wait while one thread owns the lock.
pub Full-of-Gather :
    (n r c : ℕ) (t : Thread) → Gather r t → here r t ≡ 1 → owns t ≡ 0 → Full n r c t
Full-of-Gather n r c t g h o = ground arith

pub Full-counted : (n r c : ℕ) (t : Thread) → Gather r t → t.pc ≡ compare → c ≡ n → Full n r c t
Full-counted n r c t g at_compare counted = ground arith

pub Full-quiet : (n r c c' : ℕ) (t : Thread) → Full n r c t → owns t ≡ 0 → Full n r c' t
Full-quiet n r c c' t f o = ground arith

pub Gather-of-Full :
    (n r c : ℕ) (t : Thread) → Full n r c t → owns t ≡ 0 → Gather (r + 1) t × (t.arrived ≡ r + 1)
Gather-of-Full n r c t f o = ground arith
