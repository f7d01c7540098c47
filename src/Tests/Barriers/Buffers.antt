-- ===== src/Tests/Barriers/Buffers.antt =====
-- `spin_barrier_lsense` with two threads and their store buffers.
use htsynch.Base.{ℕ, ℕ_discrete, ◌<◌, ◌≡◌, refl, true, some, List, [], ◌∷◌, arith}
use htsynch.SenseBarrier.Defs.{outside, flipped, waiting, spin_barrier_lsense}
use htsynch.SenseBarrier.Buffers.{
  Machine, Store, to_count, to_flag, is_plain, stored, plain, store, locked, drain, Reach, start,
  later,
}
use htsynch.Barrier.Spec
use htsynch.Barrier.Spec.{calls_of}
use htsynch.Barrier.Buffered.{buffered_calls, buffered_calls-Reach}

record Run : Type 0 where
  last : Machine
  reach : Reach 2 last

module _ (r : Run) (i : ℕ) (lt : i < 2) where
  abbrev then_plain : is_plain (r.last.threads i).core.pc ≡ true → Run
  then_plain h = record { last = _; reach = later r.reach (plain i lt h) }

  abbrev then_locked : (r.last.threads i).core.pc ≡ flipped → (r.last.threads i).buffer ≡ [] → Run
  then_locked h e = record { last = _; reach = later r.reach (locked i lt h e) }

  abbrev then_store :
      (s : Store) → stored (r.last.threads i).core.pc (r.last.threads i).core.lsense ≡ some s → Run
  then_store s h = record { last = _; reach = later r.reach (store i s lt h) }

  abbrev then_drain : (s : Store) (ss : List Store) → (r.last.threads i).buffer ≡ s ∷ ss → Run
  then_drain s ss e = record { last = _; reach = later r.reach (drain i s ss lt e) }

-- The first thread waits; the second finds the count full, stores, returns and begins its next call
-- before its stores reach memory.
unfoldable returned : Run
unfolding ℕ_discrete spin_barrier_lsense
returned =
    let r : Run = record { last = _; reach = start } in
    let r = then_plain r 0 (omega arith) refl in
    let r = then_locked r 0 (omega arith) refl refl in
    let r = then_plain r 0 (omega arith) refl in
    let r = then_plain r 1 (omega arith) refl in
    let r = then_locked r 1 (omega arith) refl refl in
    let r = then_plain r 1 (omega arith) refl in
    let r = then_store r 1 (omega arith) (to_count 0) refl in
    let r = then_store r 1 (omega arith) (to_flag 0) refl in
    let r = then_plain r 1 (omega arith) refl in then_plain r 0 (omega arith) refl

-- Until then the first thread waits on.
still_waiting :
    ((returned.last.threads 0).core.pc ≡ waiting)
    × ((returned.last.threads 1).core.pc ≡ flipped)
    × ((returned.last.threads 1).core.left ≡ 1)
unfolding returned ℕ_discrete spin_barrier_lsense
still_waiting = (refl, refl, refl)

unfoldable drained : Run
unfolding returned ℕ_discrete spin_barrier_lsense
drained =
    let r = then_drain returned 1 (omega arith) (to_count 0) (to_flag 0 ∷ []) refl in
    let r = then_drain r 1 (omega arith) (to_flag 0) [] refl in
    let r = then_plain r 0 (omega arith) refl in then_locked r 1 (omega arith) refl refl

let_through :
    ((drained.last.threads 0).core.pc ≡ outside) × ((drained.last.threads 1).core.arrived ≡ 2)
unfolding drained returned ℕ_discrete spin_barrier_lsense
let_through = (refl, refl)

buffered_calls-Reach_example : Spec.Reach 2 (calls_of buffered_calls drained.last.threads)
buffered_calls-Reach_example = buffered_calls-Reach 2 drained.last (omega arith) drained.reach
