-- ===== src/Tests/Locks.antt =====
-- Threads that run the locks of mwait_barrier/synch.h and spin.c in a given order.
use htsynch.Base.{
  ℕ_discrete, dec_lt, ℕ, ◌<◌, ◌≡◌, refl, true, false, Option, none, some, List, [], ◌∷◌, arith,
  update, ◌⊎◌,
}
use htsynch.Asm.{Local, entry, step}
use htsynch.SpinLock.System.{System, Reach, start, later, turn}
use htsynch.SpinLock.Safety.{Lock, plain, fast, code, free, critical}
use htsynch.SpinLock.Owner.{Handover, owner, handover}
use htsynch.SpinLock.Progress.{trying-enters, enters}

abbrev kernel : ℕ → ℕ
kernel n = 0

record Run (k : Lock) (n : ℕ) : Type 0 where
  last : System
  reach : Reach kernel (code k) n (free k) last

abbrev move :
    {k : Lock} {n : ℕ} (r : Run k n) (i : ℕ)
    → i < n
    → (o : Option (ℕ × Local)) → step kernel (code k) r.last.word (r.last.threads i) ≡ o
    → Run k n
move r i lt none e = r
move r i lt (some (w, l)) e = record { last = _; reach = later r.reach (turn i lt e) }

unfoldable schedule : {k : Lock} {n : ℕ} → List ℕ → Run k n → Run k n
unfolding dec_lt
schedule [] r = r
schedule {k} {n} (i ∷ l) r = schedule l (elim (dec_lt i n) [
  | yes lt ↦ move r i lt (step kernel (code k) r.last.word (r.last.threads i)) refl
  | no _ ↦ r
])

abbrev fresh : (k : Lock) (n : ℕ) → Run k n
fresh k n = record { last = _; reach = start }

-- The first thread takes the lock, the second fails and spins.
abbrev contended : Run plain 2
contended = schedule (0 ∷ 1 ∷ 0 ∷ 1 ∷ 1 ∷ 1 ∷ 1 ∷ []) (fresh plain 2)

-- What the first thread has in its registers after the next instruction of its section.
abbrev in_section : Local
in_section = record (contended.last.threads 0) { pc = 7 }

handover_example :
    Handover 0
      (owner plain 2 contended.last.threads)
      (owner plain 2 (update contended.last.threads 0 in_section))
    × ((critical plain in_section ≡ false)
        ⊎ (owner plain 2 (update contended.last.threads 0 in_section) ≡ some 0))
unfolding schedule step dec_lt ℕ_discrete
handover_example =
    handover kernel plain 2 contended.last (omega arith) contended.reach 0 contended.last.word
      in_section (omega arith) refl

-- A thread in the spin loop of `spin_lock_fast`.
abbrev spinning : Local
spinning = record entry { pc = 6 }

trying-enters_example : enters kernel fast 11 1 spinning ≡ true
trying-enters_example = trying-enters kernel fast spinning refl
