-- ===== src/SpinLock/Interface.antt =====
-- What a lock has to show of one instruction of one thread. `owns` and `waits` count the thread
-- as the owner, or as one that has failed to take the lock and has not seen it free since.
-- `Word o k w` relates the spin variable to the numbers of owners and of waiting threads.
use htsynch.Base.{ℕ, ◌+◌, ◌≤◌, ◌≡◌, List, some}
use htsynch.Asm.{Instr, Local, entry, step}

pub record Discipline (kernel : ℕ → ℕ) (code : List Instr) : Type 1 where
  pub free : ℕ
  pub cap : ℕ
  pub owns : Local → ℕ
  pub waits : Local → ℕ
  pub Fits : Local → Type 0
  pub Word : ℕ → ℕ → ℕ → Type 0
  pub owns-le : (l : Local) → owns l ≤ 1
  pub waits-le : (l : Local) → waits l ≤ 1
  pub entry-Fits : Fits entry
  pub entry-owns : owns entry ≡ 0
  pub free-Word : (k : ℕ) → Word 0 k free
  pub Word-le : (o k w : ℕ) → Word o k w → o ≤ 1
  pub step-Fits :
      (l l' : Local) (w w' : ℕ) → step kernel code w l ≡ some (w', l') → Fits l → Fits l'
  pub step-Word :
      (l l' : Local) (w w' o o' k k' : ℕ)
      → step kernel code w l ≡ some (w', l')
      → Fits l
      → Word o k w
      → owns l ≤ o
      → waits l ≤ k
      → k ≤ cap
      → k' ≤ cap
      → o' + owns l ≡ o + owns l'
      → k' + waits l ≡ k + waits l'
      → Word o' k' w'
