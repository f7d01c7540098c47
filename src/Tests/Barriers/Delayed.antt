-- ===== src/Tests/Barriers/Delayed.antt =====
-- `spin_barrier_lsense` of spin.c and a macro of spin.h with two threads and their store buffers.
use htsynch.Base.{ℕ, ℕ_discrete, ◌<◌, ◌-◌, ◌^◌, ◌≡◌, refl, true, some, List, [], ◌∷◌, arith}
use htsynch.LockedBarrier.Defs.{outside, try, looping, Variant, function, macro_hltcnt, code}
use htsynch.LockedBarrier.Buffers.{
  Machine, Store, to_count, to_flag, to_lock, view, is_plain, stored, plain, store, locked, drain,
  Reach, start, later,
}
use htsynch.Barrier.Spec
use htsynch.Barrier.Spec.{calls_of}
use htsynch.Barrier.Delayed.{delayed_calls, delayed_calls-Reach}

record Run : Type 0 where
  last : Machine
  reach : Reach 2 last

module _ (v : Variant) (r : Run) (i : ℕ) (lt : i < 2) where
  abbrev then_plain : is_plain (r.last.threads i).core.pc ≡ true → Run
  then_plain h = record { last = _; reach = later r.reach (plain v i lt h) }

  abbrev then_locked : (r.last.threads i).core.pc ≡ try → (r.last.threads i).buffer ≡ [] → Run
  then_locked h e = record { last = _; reach = later r.reach (locked v i lt h e) }

  abbrev then_store :
      (s : Store)
      → stored
          (r.last.threads i).core.pc
          (view r.last.memory (r.last.threads i).buffer)
          (r.last.threads i).core
        ≡ some s
      → Run
  then_store s h = record { last = _; reach = later r.reach (store v i s lt h) }

module _ (r : Run) (i : ℕ) (lt : i < 2) where
  abbrev then_drain : (s : Store) (ss : List Store) → (r.last.threads i).buffer ≡ s ∷ ss → Run
  then_drain s ss e = record { last = _; reach = later r.reach (drain i s ss lt e) }

-- The first thread arrives and waits.
unfoldable arrived_first : Run
unfolding ℕ_discrete code
arrived_first =
    let r : Run = record { last = _; reach = start } in
    let r = then_plain function r 0 (omega arith) refl in
    let r = then_locked function r 0 (omega arith) refl refl in
    let r = then_store function r 0 (omega arith) (to_count 1) refl in
    let r = then_plain function r 0 (omega arith) refl in
    let r = then_store function r 0 (omega arith) (to_lock 0) refl in
    let r = then_drain r 0 (omega arith) (to_count 1) (to_lock 0 ∷ []) refl in
    let r = then_drain r 0 (omega arith) (to_lock 0) [] refl in
    then_plain function r 0 (omega arith) refl

-- The second one finds the count full, stores, returns and begins its next call before its stores
-- reach memory.
unfoldable returned : Run
unfolding arrived_first ℕ_discrete code
returned =
    let v = macro_hltcnt in
    let r = then_plain v arrived_first 1 (omega arith) refl in
    let r = then_locked v r 1 (omega arith) refl refl in
    let r = then_store v r 1 (omega arith) (to_count 2) refl in
    let r = then_plain v r 1 (omega arith) refl in
    let r = then_store v r 1 (omega arith) (to_count 0) refl in
    let r = then_store v r 1 (omega arith) (to_flag (2 ^ 64 - 1)) refl in
    let r = then_store v r 1 (omega arith) (to_lock 0) refl in
    let r = then_plain v r 1 (omega arith) refl in
    let r = then_plain v r 1 (omega arith) refl in then_plain function r 0 (omega arith) refl

still_waiting :
    ((returned.last.threads 0).core.pc ≡ looping)
    × ((returned.last.threads 1).core.pc ≡ try)
    × ((returned.last.threads 1).core.left ≡ 1)
    × (returned.last.memory.lock ≡ 1)
unfolding returned arrived_first ℕ_discrete code
still_waiting = (refl, refl, refl, refl)

unfoldable drained : Run
unfolding returned arrived_first ℕ_discrete code
drained =
    let flag = to_flag (2 ^ 64 - 1) in
    let r =
      then_drain returned 1 (omega arith) (to_count 2) (to_count 0 ∷ flag ∷ to_lock 0 ∷ []) refl in
    let r = then_drain r 1 (omega arith) (to_count 0) (flag ∷ to_lock 0 ∷ []) refl in
    let r = then_drain r 1 (omega arith) flag (to_lock 0 ∷ []) refl in
    let r = then_drain r 1 (omega arith) (to_lock 0) [] refl in
    let r = then_plain function r 0 (omega arith) refl in
    then_locked macro_hltcnt r 1 (omega arith) refl refl

let_through :
    ((drained.last.threads 0).core.pc ≡ outside) × ((drained.last.threads 0).core.left ≡ 1)
unfolding drained returned arrived_first ℕ_discrete code
let_through = (refl, refl)

delayed_calls-Reach_example : Spec.Reach 2 (calls_of delayed_calls drained.last.threads)
delayed_calls-Reach_example = delayed_calls-Reach 2 drained.last (omega arith) drained.reach
