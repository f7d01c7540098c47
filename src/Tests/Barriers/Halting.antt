-- ===== src/Tests/Barriers/Halting.antt =====
-- Two threads in `spin_barrier_lsense_cpuhalt_send_ipi`, whose `ioctl` interrupts the other processor.
use htsynch.Base.{
  ℕ, ◌≡◌, refl, sym, inr, ◌+◌, not, ◌==◌, Bool, true, List, [], ◌∷◌, dec_lt, ℕ_discrete,
}
use htsynch.SenseBarrier.Halting.{
  halted, running, System, init, turn, interrupt, Reach, start, later,
}
use htsynch.SenseBarrier.Halted.{alone, woken-returns}

abbrev others : ℕ → ℕ → Bool
others i j = not (i == j)

record Run (n : ℕ) : Type 0 where
  last : System
  reach : Reach others n last

unfoldable schedule : {n : ℕ} → List ℕ → Run n → Run n
unfolding dec_lt
schedule [] r = r
schedule {n} (i ∷ l) r = schedule l (elim (dec_lt i n) [
  | yes lt ↦ record { last = turn others true r.last i; reach = later r.reach true i lt }
  | no _ ↦ r
])

-- The first thread finds the flag not set and goes into the system call; the second sets the flag
-- and sends its interrupt; only then the first halts.
abbrev lost : Run 2
lost =
    schedule (0 ∷ 0 ∷ 0 ∷ 0 ∷ 1 ∷ 1 ∷ 1 ∷ 1 ∷ 1 ∷ 1 ∷ 0 ∷ [])
      (record { last = init 2; reach = start })

-- The processor is halted though the flag is set and the other thread has left.
lost-halted :
    ((lost.last.threads 0).mode ≡ halted)
    × ((lost.last.threads 0).core.lsense ≡ lost.last.barrier.release_flag)
    × ((lost.last.threads 1).mode ≡ running)
    × ((lost.last.threads 1).core.left ≡ 1)
unfolding schedule dec_lt ℕ_discrete
lost-halted = (refl, refl, refl, refl)

-- Ten steps alone do not let it go, and one interrupt does.
woken-returns_example :
    let left = λ (u : System). (u.threads 0).core.left in
    (left (alone others true 0 10 lost.last) ≡ left lost.last)
    × (left (turn others true (interrupt (turn others true lost.last 0) 0) 0) ≡ left lost.last + 1)
woken-returns_example =
    woken-returns others 2 lost.last true 0 10 lost.reach (inr lost-halted.0) (sym lost-halted.1)
