-- ===== src/Trials/TwoPackages.antt =====
-- The four threads of mwait_barrier/test_barriers_2packages.c: `heavy` and `light` choose the barrier
-- and the matrices of their package and then run as in test_barriers.c.
use htsynch.Base.{ℕ, ◌≡◌, ◌==◌, if◌then◌else◌, refl, List, [], ◌∷◌, Option, none, some}
use htsynch.Trials.Interface.{RoundBarrier}
use htsynch.Trials.Pair
use htsynch.Trials.Pair.{Trial, Event, heavy_runs, light_runs, disturbed, turn, run}

-- `targs_t` without the set of processors and the sense, which is the barrier's.
pub record Targs : Type 0 where
  pub id : ℕ
  pub on_package : ℕ

-- What `main` leaves in them.
abbrev pub targs0 : Targs
targs0 = record { id = 0; on_package = 0 }

abbrev pub targs1 : Targs
targs1 = record { id = 1; on_package = 0 }

abbrev pub targs2 : Targs
targs2 = record { id = 2; on_package = 1 }

abbrev pub targs3 : Targs
targs3 = record { id = 3; on_package = 1 }

-- The pairs of the two packages, each with a barrier and matrices of its own.
pub record Packages (S : Type 0) : Type 0 where
  pub first : Trial S
  pub second : Trial S

module _ (R : RoundBarrier) (iterations : ℕ) where
  abbrev pub begin_packages : Packages R.State
  begin_packages = record { first = Pair.begin R iterations; second = Pair.begin R iterations }

  -- `none` for a package that leaves the barrier unset.
  abbrev pub heavy : Targs → Packages R.State → Option (Packages R.State)
  heavy targs p =
      if targs.on_package == 0
      then some (record p { first = Pair.heavy R iterations p.first })
      else if targs.on_package == 1
      then some (record p { second = Pair.heavy R iterations p.second })
      else none

  abbrev pub light : Targs → Packages R.State → Option (Packages R.State)
  light targs p =
      if targs.on_package == 0
      then some (record p { first = Pair.light R iterations p.first })
      else if targs.on_package == 1
      then some (record p { second = Pair.light R iterations p.second })
      else none

-- A step of a thread, or what else may happen on a package.
pub data Turn (N : Type 0) : Type 0 where
  thread0 thread1 thread2 thread3 : Turn N
  first_disturbed second_disturbed : N → Turn N

abbrev pub of_first : {N : Type 0} → List (Turn N) → List (Event N)
of_first [] = []
of_first (thread0 ∷ ts) = heavy_runs ∷ of_first ts
of_first (thread1 ∷ ts) = light_runs ∷ of_first ts
of_first (first_disturbed e ∷ ts) = disturbed e ∷ of_first ts
of_first (t ∷ ts) = of_first ts

abbrev pub of_second : {N : Type 0} → List (Turn N) → List (Event N)
of_second [] = []
of_second (thread2 ∷ ts) = heavy_runs ∷ of_second ts
of_second (thread3 ∷ ts) = light_runs ∷ of_second ts
of_second (second_disturbed e ∷ ts) = disturbed e ∷ of_second ts
of_second (t ∷ ts) = of_second ts

module _ (R : RoundBarrier) (n : ℕ) where
  abbrev pub turn_packages : Turn R.Noise → Packages R.State → Option (Packages R.State)
  turn_packages thread0 p = heavy R n targs0 p
  turn_packages thread1 p = light R n targs1 p
  turn_packages thread2 p = heavy R n targs2 p
  turn_packages thread3 p = light R n targs3 p
  turn_packages (first_disturbed e) p = some (record p { first = turn R n (disturbed e) p.first })
  turn_packages (second_disturbed e) p =
      some (record p { second = turn R n (disturbed e) p.second })

  abbrev pub run_packages : List (Turn R.Noise) → Packages R.State → Option (Packages R.State)
  run_packages [] p = some p
  run_packages (t ∷ ts) p = elim (turn_packages t p) [ none ↦ none | some q ↦ run_packages ts q ]

  -- Any run of the four threads goes on with a barrier chosen, and is on each package a run of its
  -- own pair alone.
  pub run_packages-run :
      (ts : List (Turn R.Noise)) (first second : Trial R.State)
      → run_packages ts (record { first = first; second = second })
        ≡ some
            (record { first = run R n (of_first ts) first; second = run R n (of_second ts) second })
  unfolding turn run
  run_packages-run [] first second = refl
  run_packages-run (thread0 ∷ ts) first second = run_packages-run ts _ second
  run_packages-run (thread1 ∷ ts) first second = run_packages-run ts _ second
  run_packages-run (thread2 ∷ ts) first second = run_packages-run ts first _
  run_packages-run (thread3 ∷ ts) first second = run_packages-run ts first _
  run_packages-run (first_disturbed e ∷ ts) first second = run_packages-run ts _ second
  run_packages-run (second_disturbed e ∷ ts) first second = run_packages-run ts first _
