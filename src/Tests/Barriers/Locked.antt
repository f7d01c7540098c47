-- ===== src/Tests/Barriers/Locked.antt =====
-- `spin_barrier_lsense` of spin.c and its macros with two threads, and the calls of both barriers.
use htsynch.Base.{
  ℕ, zero, suc, ◌+◌, ◌<◌, ◌≡◌, refl, List, [], ◌∷◌, arith, dec_lt, ℕ_discrete, inl, inr, ◌⊎◌,
}
use htsynch.LockedBarrier.Defs.{
  Pc, Variant, function, macro_hlt, macro_hltcnt, System, init, turn, Reach, start, later, code,
}
use htsynch.LockedBarrier.Progress.{Blocked, Unwoken, Idle, Blocked-arrived}
use htsynch.Barrier.Spec
use htsynch.Barrier.Spec.{Calls, calls_of}
use htsynch.Barrier.Locked.{locked_calls, locked_calls-Reach}

record Run (n : ℕ) : Type 0 where
  last : System
  reach : Reach n last

unfoldable schedule : {n : ℕ} → List (Variant × ℕ) → Run n → Run n
unfolding dec_lt
schedule [] r = r
schedule {n} ((v, i) ∷ l) r = schedule l (elim (dec_lt i n) [
  | yes lt ↦ record { last = turn v r.last i; reach = later r.reach v i lt }
  | no _ ↦ r
])

abbrev before : Run 2
before = record { last = init 2; reach = start }

-- The first thread arrives and waits, with the second one outside.
abbrev arriving : Run 2
arriving =
    schedule
      ((function, 0)
        ∷ (function, 0)
        ∷ (function, 0)
        ∷ (function, 0)
        ∷ (function, 0)
        ∷ (function, 0)
        ∷ [])
      before

-- The second thread follows with the counting macro, resets the count and lets both go.
abbrev passing : Run 2
passing =
    schedule
      ((macro_hltcnt, 1)
        ∷ (macro_hltcnt, 1)
        ∷ (macro_hltcnt, 1)
        ∷ (macro_hltcnt, 1)
        ∷ (macro_hltcnt, 1)
        ∷ (macro_hltcnt, 1)
        ∷ (macro_hltcnt, 1)
        ∷ (macro_hltcnt, 1)
        ∷ (function, 0)
        ∷ [])
      arriving

passing_left :
    ((passing.last.threads 0).left ≡ 1)
    × ((passing.last.threads 1).left ≡ 1)
    × (passing.last.barrier.lock ≡ 0)
unfolding schedule dec_lt ℕ_discrete code
passing_left = (refl, refl, refl)

passing_calls : Spec.Reach 2 (calls_of locked_calls passing.last.threads)
passing_calls = locked_calls-Reach 2 passing.last (omega arith) passing.reach

abbrev repeated : ℕ → Variant × ℕ → List (Variant × ℕ)
repeated zero t = []
repeated (suc k) t = t ∷ repeated k t

-- The first thread waits in its `ioctl`; the second sets the flag, returns, comes to its next call and
-- waits in its own. Nothing has woken the first one.
abbrev asleep : Run 2
asleep = schedule (repeated 14 (macro_hlt, 1)) (schedule (repeated 6 (macro_hlt, 0)) before)

idle : (j : ℕ) → j < 2 → Idle asleep.last.barrier (asleep.last.threads j)
unfolding schedule dec_lt ℕ_discrete code
idle zero lt = inr (inl (refl, refl))
idle (suc zero) lt = inl (inr (inr (inl refl), refl))
idle (suc (suc j)) lt = absurd (omega arith)

second-Blocked : Blocked asleep.last.barrier (asleep.last.threads 1)
unfolding schedule dec_lt ℕ_discrete code
second-Blocked = inr (inr (inl refl), refl)

Blocked-arrived_example :
    (j : ℕ) × (j < 2)
    × (Unwoken asleep.last.barrier (asleep.last.threads j)
        ⊎ ((asleep.last.threads j).pc ≡ Pc.outside))
    × ((asleep.last.threads 1).arrived ≡ (asleep.last.threads j).arrived + 1)
Blocked-arrived_example =
    Blocked-arrived 2 asleep.last (omega arith) asleep.reach idle 1 (omega arith) second-Blocked
