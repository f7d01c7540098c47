-- ===== src/SpinLock/Invariant.antt =====
-- The invariant of `n` threads over any lock that meets the interface, and mutual exclusion.
use htsynch.Base.{ℕ, ◌≤◌, ◌<◌, ◌≡◌, List, arith, dec_lt, total, update-all}
use htsynch.Base.{update, total-update, total-le, total-eq-zero, two-le-total, le-total}
use htsynch.Asm.{Instr, entry}
use htsynch.SpinLock.System.{System, Step, turn, Reach, start, later}
use htsynch.SpinLock.Interface.{Discipline}

module _ {kernel : ℕ → ℕ} {code : List Instr} (d : Discipline kernel code) where
  open d use {free, cap, owns, waits, Fits, Word}

  pub record Inv (n : ℕ) (s : System) : Type 0 where
    pub fits : (i : ℕ) → Fits (s.threads i)
    pub word : Word (total owns n s.threads) (total waits n s.threads) s.word

  Step-Inv : {n : ℕ} {s t : System} → n ≤ cap → Step kernel code n s t → Inv n s → Inv n t
  Step-Inv {n} {s} few (turn i {w} {l} lt e) inv = record {
    fits =
        update-all Fits s.threads i (d.step-Fits (s.threads i) l s.word w e (inv.fits i)) inv.fits;
    word =
        d.step-Word (s.threads i) l s.word w _ _ _ _ e (inv.fits i) inv.word
          (le-total owns n s.threads i lt) (le-total waits n s.threads i lt)
          (omega (arith, total-le waits d.waits-le n s.threads))
          (omega (arith, total-le waits d.waits-le n (update s.threads i l)))
          (total-update owns n s.threads i l lt) (total-update waits n s.threads i l lt);
  }

  pub Reach-Inv : {n : ℕ} {s : System} → n ≤ cap → Reach kernel code n free s → Inv n s
  Reach-Inv {n} few start = record {
    fits = λ _. d.entry-Fits;
    word = rw (total-eq-zero owns n (λ _. entry) (λ i p. d.entry-owns)) (d.free-Word _);
  }
  Reach-Inv few (later r st) = Step-Inv few st (Reach-Inv few r)

  -- Two threads that own the lock are one.
  pub owner_unique :
      {n : ℕ} {s : System}
      → n ≤ cap
      → Reach kernel code n free s
      → (i j : ℕ) → i < n
      → j < n
      → owns (s.threads i) ≡ 1
      → owns (s.threads j) ≡ 1
      → i ≡ j
  owner_unique {n} {s} few r i j pi pj oi oj = elim (dec_lt i j) [
    | yes p ↦ absurd (omega (arith, at_most, two-le-total owns n s.threads i j p pj))
    | no p ↦ elim (dec_lt j i) [
      | yes q ↦ absurd (omega (arith, at_most, two-le-total owns n s.threads j i q pi))
      | no q ↦ omega arith
    ]
  ]
    where
      at_most : total owns n s.threads ≤ 1
      at_most = d.Word-le _ _ _ (Reach-Inv few r).word
