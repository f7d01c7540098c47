-- ===== src/SpinLock/Fast.antt =====
-- `spin_lock_fast` and `spin_unlock` of mwait_barrier/synch.h meet the lock interface.
use htsynch.Base.{
  ℕ, zero, suc, ◌+◌, ◌^◌, ◌<◌, ◌≤◌, ◌≡◌, refl, Bool, true, false, ◌||◌, ◌==◌, some, arith,
}
use htsynch.Asm.{Local, step}
use htsynch.SpinLock.Code.{client_fast}
use htsynch.SpinLock.System.{System, Reach}
use htsynch.SpinLock.Invariant.{owner_unique}
use htsynch.SpinLock.Interface.{Discipline}
use htsynch.SpinLock.Decrement.{Word, max_waiting, free-Word, Word-le}

-- By the next instruction and the flags: does the thread own the lock, does it wait for it?
abbrev pub owns_at : ℕ → Bool → Bool → ℕ
owns_at (suc zero) true sf = 1
owns_at (suc (suc zero)) zf sf = 1
owns_at (suc (suc (suc zero))) zf sf = 1
owns_at _ _ _ = 0

abbrev waits_at : ℕ → Bool → Bool → Bool → ℕ
waits_at (suc zero) false sf le = 1
waits_at (suc (suc (suc (suc (suc zero))))) zf sf le = 1
waits_at (suc (suc (suc (suc (suc (suc zero)))))) zf sf le = 1
waits_at (suc (suc (suc (suc (suc (suc (suc zero))))))) zf sf true = 1
waits_at (suc (suc (suc (suc (suc (suc (suc (suc zero)))))))) zf sf le = 1
waits_at _ _ _ _ = 0

abbrev pub owns : Local → ℕ
owns l = owns_at l.pc l.zf l.sf

abbrev waits : Local → ℕ
waits l = waits_at l.pc l.zf l.sf (l.zf || l.less)

pub owns_at-le : (pc : ℕ) (zf sf : Bool) → owns_at pc zf sf ≤ 1
owns_at-le (suc (suc (suc (suc (suc (suc (suc (suc zero)))))))) zf sf = ground arith
owns_at-le _ zf sf = ground arith

waits_at-le : (pc : ℕ) (zf sf le : Bool) → waits_at pc zf sf le ≤ 1
waits_at-le (suc (suc (suc (suc (suc (suc (suc (suc zero)))))))) zf sf le = ground arith
waits_at-le _ zf sf le = ground arith

module _ (kernel : ℕ → ℕ) (eax cnt w w' o o' k k' : ℕ) (l' : Local) where
  step_at :
      (pc : ℕ) (zf sf less : Bool)
      → step kernel client_fast w
          (record { pc = pc; eax = eax; zf = zf; sf = sf; less = less; cnt = cnt })
        ≡ some (w', l')
      → Word o k w
      → owns_at pc zf sf ≤ o
      → waits_at pc zf sf (zf || less) ≤ k
      → k ≤ max_waiting
      → k' ≤ max_waiting
      → o' + owns_at pc zf sf ≡ o + owns l'
      → k' + waits_at pc zf sf (zf || less) ≡ k + waits l'
      → Word o' k' w'
  unfolding step
  step_at (suc (suc (suc (suc (suc (suc (suc (suc zero)))))))) zf sf less e word p q r r' eo ek =
      ground arith
  step_at _ zf sf less e word p q r r' eo ek = ground arith

discipline : (kernel : ℕ → ℕ) → Discipline kernel client_fast
discipline kernel = record {
  free = 1;
  cap = max_waiting;
  owns = owns;
  waits = waits;
  Fits = λ _. Unit {0};
  Word = Word;
  owns-le = λ l. owns_at-le l.pc l.zf l.sf;
  waits-le = λ l. waits_at-le l.pc l.zf l.sf (l.zf || l.less);
  entry-Fits = tt;
  entry-owns = refl;
  free-Word = free-Word;
  Word-le = Word-le;
  step-Fits = λ _ _ _ _ _ _. tt;
  step-Word = λ l l' w w' o o' k k' e _.
      step_at kernel l.eax l.cnt w w' o o' k k' l' l.pc l.zf l.sf l.less e;
}

pub critical-owns : (l : Local) → (l.pc == 2 || l.pc == 3) ≡ true → owns l ≡ 1
critical-owns l h = ground arith

pub one_owner :
    (kernel : ℕ → ℕ) (n : ℕ) (s : System)
    → n < 2 ^ 31
    → Reach kernel client_fast n 1 s
    → (i j : ℕ) → i < n
    → j < n
    → owns (s.threads i) ≡ 1
    → owns (s.threads j) ≡ 1
    → i ≡ j
unfolding discipline
one_owner kernel n s few = owner_unique (discipline kernel) (omega arith)

pub excludes :
    (kernel : ℕ → ℕ) (n : ℕ) (s : System)
    → n < 2 ^ 31
    → Reach kernel client_fast n 1 s
    → (i j : ℕ) → i < n
    → j < n
    → ((s.threads i).pc == 2 || (s.threads i).pc == 3) ≡ true
    → ((s.threads j).pc == 2 || (s.threads j).pc == 3) ≡ true
    → i ≡ j
excludes kernel n s few r i j pi pj ci cj =
    one_owner kernel n s few r i j pi pj (critical-owns (s.threads i) ci)
      (critical-owns (s.threads j) cj)
