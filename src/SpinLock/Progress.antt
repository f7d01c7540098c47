-- ===== src/SpinLock/Progress.antt =====
-- A thread in the code of a lock that is free takes the lock if it runs alone.
use htsynch.Base.{
  ℕ, zero, suc, ◌≡◌, ◌||◌, ◌&&◌, ◌==◌, not, ltb, leb, Bool, true, false, none, some, arith,
}
use htsynch.Asm.{Local, step}
use htsynch.SpinLock.Safety.{Lock, plain, fast, cas, xchg, v2, macro, code, free, critical}

-- In the code of the lock, with the lock not taken yet.
abbrev trying_at : Lock → ℕ → ℕ → Bool → Bool → Bool
trying_at plain pc eax zf sf = ltb pc 6 && not (pc == 1 && not sf)
trying_at v2 pc eax zf sf = ltb pc 6 && not (pc == 1 && not sf)
trying_at fast pc eax zf sf = (ltb pc 2 && not (pc == 1 && zf)) || (leb 5 pc && ltb pc 9)
trying_at cas pc eax zf sf = ltb pc 9 && not ((pc == 2 && eax == 1) || (pc == 3 && zf) || pc == 4)
trying_at xchg pc eax zf sf = ltb pc 9 && not ((pc == 2 && eax == 0) || (pc == 3 && zf) || pc == 4)
trying_at macro pc eax zf sf = ltb pc 9 && not ((pc == 2 && eax == 0) || (pc == 3 && zf) || pc == 4)

abbrev pub trying : Lock → Local → Bool
trying k l = trying_at k l.pc l.eax l.zf l.sf

-- The thread enters the critical section within so many of its own instructions.
pub enters : (ℕ → ℕ) → Lock → ℕ → ℕ → Local → Bool
enters kernel k zero w l = critical k l
enters kernel k (suc rounds) w l = critical k l || elim (step kernel (code k) w l) [
  | none ↦ false
  | some (w', l') ↦ enters kernel k rounds w' l'
]

module _ (kernel : ℕ → ℕ) (eax cnt : ℕ) where
  enters_at :
      (k : Lock) (pc : ℕ) (zf sf less : Bool)
      → trying_at k pc eax zf sf ≡ true
      → enters kernel k 11
          (free k)
          (record { pc = pc; eax = eax; zf = zf; sf = sf; less = less; cnt = cnt })
        ≡ true
  unfolding enters step
  enters_at plain (suc (suc (suc (suc (suc (suc (suc (suc (suc zero))))))))) zf sf less h =
      ground arith
  enters_at plain _ zf sf less h = ground arith
  enters_at fast (suc (suc (suc (suc (suc (suc (suc (suc (suc zero))))))))) zf sf less h =
      ground arith
  enters_at fast _ zf sf less h = ground arith
  enters_at cas (suc (suc (suc (suc (suc (suc (suc (suc (suc zero))))))))) zf sf less h =
      ground arith
  enters_at cas _ zf sf less h = ground arith
  enters_at xchg (suc (suc (suc (suc (suc (suc (suc (suc (suc zero))))))))) zf sf less h =
      ground arith
  enters_at xchg _ zf sf less h = ground arith
  enters_at macro (suc (suc (suc (suc (suc (suc (suc (suc (suc zero))))))))) zf sf less h =
      ground arith
  enters_at macro _ zf sf less h = ground arith
  enters_at v2 (suc (suc (suc (suc (suc (suc (suc (suc (suc zero))))))))) zf sf less h =
      ground arith
  enters_at v2 _ zf sf less h = ground arith

-- Whenever the lock is free, a thread anywhere in its code, spinning included, is in the critical
-- section after at most eleven of its own instructions, if no other thread intervenes.
pub trying-enters :
    (kernel : ℕ → ℕ) (k : Lock) (l : Local)
    → trying k l ≡ true
    → enters kernel k 11 (free k) l ≡ true
trying-enters kernel k l = enters_at kernel l.eax l.cnt k l.pc l.zf l.sf l.less
