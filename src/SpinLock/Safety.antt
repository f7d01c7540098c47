-- ===== src/SpinLock/Safety.antt =====
-- The six locks under one name each, and mutual exclusion for all of them.
use htsynch.Base.{
  ℕ, ◌^◌, ◌<◌, ◌≡◌, ◌||◌, ◌==◌, Bool, true, false, List, arith, ◌≢◌, inl, inr, Bool-cases,
}
use htsynch.Asm.{Instr, Local}
use htsynch.SpinLock.Code.{
  client, client_fast, spin_lock, spin_unlock, spin_lock_cas, spin_lock_xchg, spin_unlock_xchg,
  spin_lock_v2, spin_unlock_v2, macro_lock, macro_unlock,
}
use htsynch.SpinLock.System.{System, Reach}
use htsynch.SpinLock.Plain
use htsynch.SpinLock.Fast
use htsynch.SpinLock.VersionTwo
use htsynch.SpinLock.Exchange

pub data Lock : Type 0 where
  plain fast cas xchg v2 macro : Lock

-- A thread that uses the lock.
abbrev pub code : Lock → List Instr
code plain = client spin_lock spin_unlock
code fast = client_fast
code cas = client spin_lock_cas spin_unlock
code xchg = client spin_lock_xchg spin_unlock_xchg
code v2 = client spin_lock_v2 spin_unlock_v2
code macro = client macro_lock macro_unlock

-- What the lock's init stores.
abbrev pub free : Lock → ℕ
free xchg = 0
free macro = 0
free _ = 1

-- From the lock's last label up to the store of the unlock.
abbrev pub critical : Lock → Local → Bool
critical fast l = l.pc == 2 || l.pc == 3
critical cas l = l.pc == 9 || l.pc == 10
critical xchg l = l.pc == 9 || l.pc == 10
critical macro l = l.pc == 9 || l.pc == 10
critical _ l = l.pc == 6 || l.pc == 7

-- The decrementing locks count the failed attempts in 31 bits.
abbrev pub Few : Lock → ℕ → Type 0
Few cas n = Unit
Few xchg n = Unit
Few macro n = Unit
Few _ n = n < 2 ^ 31

unique_critical :
    (kernel : ℕ → ℕ) (k : Lock) (n : ℕ) (s : System)
    → Few k n
    → Reach kernel (code k) n (free k) s
    → (i j : ℕ) → i < n
    → j < n
    → critical k (s.threads i) ≡ true
    → critical k (s.threads j) ≡ true
    → i ≡ j
unique_critical kernel plain = Plain.excludes kernel
unique_critical kernel fast = Fast.excludes kernel
unique_critical kernel v2 = VersionTwo.excludes kernel
unique_critical kernel cas = λ n s _. Exchange.excludes kernel 0 1 (omega arith) n s
unique_critical kernel xchg = λ n s _. Exchange.excludes kernel 1 0 (omega arith) n s
unique_critical kernel macro = λ n s _. Exchange.excludes kernel 1 0 (omega arith) n s

-- However the instructions of `n` threads interleave, while one thread is in the critical section
-- of a lock no other thread is: for `spin_lock_cas`, the `spin_lock` of spin.c and `SPIN_LOCK` with
-- any number of threads, for `spin_lock`, `spin_lock_fast` and `spin_lock_v2` with fewer than 2 ^ 31.
pub mutual_exclusion :
    (kernel : ℕ → ℕ) (k : Lock) (n : ℕ) (s : System)
    → Few k n
    → Reach kernel (code k) n (free k) s
    → (i j : ℕ) → i < n
    → j < n
    → i ≢ j
    → critical k (s.threads i) ≡ true
    → critical k (s.threads j) ≡ false
mutual_exclusion kernel k n s few reach i j p q ne h =
    elim (Bool-cases (critical k (s.threads j))) [
      | inl e ↦ absurd (ne (unique_critical kernel k n s few reach i j p q h e))
      | inr e ↦ e
    ]
