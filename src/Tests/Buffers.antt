-- ===== src/Tests/Buffers.antt =====
-- Threads that run `spin_lock` of mwait_barrier/synch.h behind store buffers.
use htsynch.Base.{ℕ_discrete, ℕ, ◌<◌, ◌≡◌, refl, true, false, some, List, [], ◌∷◌, get_elem?, arith}
use htsynch.Asm.{Instr, lock_decl, jns, pause, cmpl, jle, jmp, movl, section_body}
use htsynch.SpinLock.Safety.{Lock, plain, code, free, critical}
use htsynch.SpinLock.Buffers.{
  Machine, is_plain, is_locked, Step, store, locked, drain, Reach, start, later,
}
use htsynch.SpinLock.Buffered.{buffered_exclusion}

abbrev kernel : ℕ → ℕ
kernel n = 0

record Run (k : Lock) (n : ℕ) : Type 0 where
  last : Machine
  reach : Reach kernel (code k) n (free k) last

module _ {k : Lock} {n : ℕ} (r : Run k n) (i : ℕ) (lt : i < n) where
  abbrev then_plain :
      (c : Instr)
      → get_elem? (code k) (r.last.threads i).local.pc ≡ some c
      → is_plain c ≡ true
      → Run k n
  then_plain c f p = record { last = _; reach = later r.reach (Step.plain i c lt f p) }

  abbrev then_locked :
      (c : Instr)
      → get_elem? (code k) (r.last.threads i).local.pc ≡ some c
      → is_locked c ≡ true
      → (r.last.threads i).buffer ≡ []
      → Run k n
  then_locked c f p e = record { last = _; reach = later r.reach (locked i c lt f p e) }

  abbrev then_store :
      (v : ℕ) → get_elem? (code k) (r.last.threads i).local.pc ≡ some (movl v) → Run k n
  then_store v f = record { last = _; reach = later r.reach (store i v lt f) }

  abbrev then_drain : (v : ℕ) (vs : List ℕ) → (r.last.threads i).buffer ≡ v ∷ vs → Run k n
  then_drain v vs e = record { last = _; reach = later r.reach (drain i v vs lt e) }

-- The first thread takes the lock, and its store of the unlock waits in its buffer.
unfoldable released : Run plain 2
unfolding ℕ_discrete
released =
    let r : Run plain 2 = record { last = _; reach = start } in
    let r = then_locked r 0 (omega arith) lock_decl refl refl refl in
    let r = then_plain r 0 (omega arith) (jns 6) refl refl in
    let r = then_plain r 0 (omega arith) section_body refl refl in
    then_store r 0 (omega arith) 1 refl

-- The second thread fails while the store waits, and takes the lock once it has reached memory.
unfoldable taken : Run plain 2
unfolding released ℕ_discrete
taken =
    let r = then_locked released 1 (omega arith) lock_decl refl refl refl in
    let r = then_plain r 1 (omega arith) (jns 6) refl refl in
    let r = then_drain r 0 (omega arith) 1 [] refl in
    let r = then_plain r 1 (omega arith) pause refl refl in
    let r = then_plain r 1 (omega arith) (cmpl 0) refl refl in
    let r = then_plain r 1 (omega arith) (jle 2) refl refl in
    let r = then_plain r 1 (omega arith) (jmp 0) refl refl in
    let r = then_locked r 1 (omega arith) lock_decl refl refl refl in
    then_plain r 1 (omega arith) (jns 6) refl refl

buffered_exclusion_example : critical plain (taken.last.threads 0).local ≡ false
unfolding taken released ℕ_discrete
buffered_exclusion_example =
    buffered_exclusion kernel plain 2 taken.last (omega arith) taken.reach 1 0 (omega arith)
      (omega arith) (λ e. absurd (omega (arith, e))) refl
