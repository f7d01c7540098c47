-- ===== src/Tests/Loops.antt =====
-- Waiting loops on a variable that changes while they run.
use htsynch.Base.{ℕ, zero, suc, ◌<◌, ◌≡◌, refl, none, some, arith}
use htsynch.Asm.{entry}
use htsynch.SpinLoop.Run.{Loop, code, run}
use htsynch.SpinLoop.Laws.{run-EndsAt, ineq-misses-equal}

abbrev kernel : ℕ → ℕ
kernel n = 0

-- 0, 0, and then 1.
abbrev set_late : ℕ → ℕ
set_late zero = 0
set_late (suc zero) = 0
set_late _ = 1

below-one : (j : ℕ) → j < 1 → set_late (suc j) ≡ 0
below-one zero p = refl
below-one (suc j) p = absurd (omega arith)

-- The counter is about to wrap.
run-EndsAt_example :
    run kernel
      (code Loop.macro_hltcnt 1)
      set_late
      15
      0
      (record entry { cnt = 18446744073709551615 })
    ≡ some (3, 1)
run-EndsAt_example =
    run-EndsAt kernel set_late Loop.macro_hltcnt 1 2 15 18446744073709551615
      (refl, (λ j p. rw (below-one j p) refl), refl) (omega arith) (omega arith)

-- 0, and then 1: the value waited for.
abbrev set_once : ℕ → ℕ
set_once zero = 0
set_once _ = 1

ineq-misses-equal_example : run kernel (code Loop.wait_ineq 1) set_once 100 0 entry ≡ none
ineq-misses-equal_example =
    ineq-misses-equal kernel set_once Loop.wait_ineq 1 refl refl (λ j. refl) 100
