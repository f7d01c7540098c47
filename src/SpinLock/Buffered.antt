-- ===== src/SpinLock/Buffered.antt =====
-- Mutual exclusion of the six locks on a processor with store buffers: the store that gives a lock
-- back may be late, but then its thread cannot have gone past the next locked instruction.
use htsynch.Base.{
  ℕ, zero, suc, ◌<◌, ◌≡◌, ◌≢◌, ◌||◌, ◌==◌, refl, Bool, true, false, List, [], ◌∷◌, some, get_elem?,
  ◌⊎◌, inl, inr, arith, update-all, Bool-cases,
}
use mathlib.Core.Path.{subst}
use htsynch.Asm.{Instr, Local, exec, movl}
use htsynch.SpinLock.Safety.{Lock, plain, fast, v2, code, free, critical, Few, mutual_exclusion}
use htsynch.SpinLock.Buffers.{
  is_plain, view, Thread, Machine, plain_after, Step, store, locked, drain, Reach, start, later,
}
use htsynch.SpinLock.Lag.{Lags, Lags-empty}
use htsynch.SpinLock.System.{System}
use htsynch.SpinLock.Serial.{Reach-Serial}

-- Behind the unlock and before the next locked instruction.
abbrev pending_at : Lock → ℕ → Bool
pending_at plain pc = pc == 8 || pc == 0
pending_at fast pc = pc == 4 || pc == 0
pending_at v2 pc = pc == 8 || pc == 0
pending_at _ pc = pc == 11 || pc == 0 || pc == 1

-- Whether the instruction is one that may follow.
pending_plain :
    (kernel : ℕ → ℕ) (k : Lock) (pc eax w cnt : ℕ) (zf sf less : Bool) (c : Instr)
    → let l : Local = record { pc = pc; eax = eax; zf = zf; sf = sf; less = less; cnt = cnt } in
      pending_at k pc ≡ true
      → get_elem? (code k) pc ≡ some c
      → is_plain c ≡ true
      → pending_at k (exec kernel c w l).1.pc ≡ true
pending_plain kernel k (suc (suc (suc (suc (suc (suc (suc (suc (suc (suc (suc zero))))))))))) eax w
      cnt zf sf less c p f h =
    ground arith
pending_plain kernel k _ eax w cnt zf sf less c p f h = ground arith

pending_store :
    (k : Lock) (pc v : ℕ) → get_elem? (code k) pc ≡ some (movl v) → pending_at k (suc pc) ≡ true
pending_store k (suc (suc (suc (suc (suc (suc (suc (suc (suc (suc (suc zero))))))))))) v f =
    ground arith
pending_store k _ v f = ground arith

pending_calm : (k : Lock) (l : Local) → pending_at k l.pc ≡ true → critical k l ≡ true → ⊥
pending_calm k l p c = ground arith

abbrev Calm : Lock → Thread → Type 0
Calm k t = (t.buffer ≡ []) ⊎ (pending_at k t.local.pc ≡ true)

plain-Calm :
    (kernel : ℕ → ℕ) (k : Lock) (c : Instr) (w : ℕ) (t : Thread)
    → get_elem? (code k) t.local.pc ≡ some c
    → is_plain c ≡ true
    → Calm k t
    → Calm k (plain_after kernel c w t)
plain-Calm kernel k c w t f h (inl e) = inl e
plain-Calm kernel k c w t f h (inr p) =
    let l = t.local in
    inr (pending_plain kernel k l.pc l.eax (view w t.buffer) l.cnt l.zf l.sf l.less c p f h)

drain-Calm :
    (k : Lock) (v : ℕ) (vs : List ℕ) (t : Thread)
    → t.buffer ≡ v ∷ vs
    → Calm k t
    → Calm k (record t { buffer = vs })
drain-Calm k v vs t e (inl h) = absurd (cc)
drain-Calm k v vs t e (inr p) = inr p

Step-Calm :
    {kernel : ℕ → ℕ} (k : Lock) {n : ℕ} {m m' : Machine}
    → Step kernel (code k) n m m'
    → ((j : ℕ) → Calm k (m.threads j))
    → (j : ℕ) → Calm k (m'.threads j)
Step-Calm {kernel} k {m = m} (Step.plain i c lt f h) all =
    update-all (Calm k) m.threads i (plain-Calm kernel k c m.memory (m.threads i) f h (all i)) all
Step-Calm k {m = m} (store i v lt f) all =
    update-all (Calm k) m.threads i (inr (pending_store k (m.threads i).local.pc v f)) all
Step-Calm k {m = m} (locked i c lt f h e) all = update-all (Calm k) m.threads i (inl e) all
Step-Calm k {m = m} (drain i v vs lt e) all =
    update-all (Calm k) m.threads i (drain-Calm k v vs (m.threads i) e (all i)) all

Reach-Calm :
    {kernel : ℕ → ℕ} (k : Lock) {n : ℕ} {m : Machine}
    → Reach kernel (code k) n (free k) m
    → (j : ℕ) → Calm k (m.threads j)
Reach-Calm k start j = inl refl
Reach-Calm k (later r st) j = Step-Calm k st (Reach-Calm k r) j

-- A thread in the critical section has no store in its buffer, so it is where it is without one.
critical-Lags :
    (kernel : ℕ → ℕ) (k : Lock) (a : Local) (t : Thread)
    → Calm k t
    → Lags kernel (code k) t.buffer a t.local
    → critical k t.local ≡ true
    → t.local ≡ a
critical-Lags kernel k a t (inl e) h c = Lags-empty kernel (code k) t.buffer a t.local e h
critical-Lags kernel k a t (inr p) h c = absurd (pending_calm k t.local p c)

-- However the instructions of `n` threads and the store buffers interleave, while one thread is in
-- the critical section of a lock no other thread is, for the six locks and as many threads as
-- without buffers.
pub buffered_exclusion :
    (kernel : ℕ → ℕ) (k : Lock) (n : ℕ) (m : Machine)
    → Few k n
    → Reach kernel (code k) n (free k) m
    → (i j : ℕ) → i < n
    → j < n
    → i ≢ j
    → critical k (m.threads i).local ≡ true
    → critical k (m.threads j).local ≡ false
buffered_exclusion kernel k n m few r i j p q ne h =
    let s = Reach-Serial kernel (code k) n (free k) r in
    let state : System = record { word = m.memory; threads = s.at } in
    let at_i = critical-Lags kernel k (s.at i) (m.threads i) (Reach-Calm k r i) (s.lags i) in
    let at_j = critical-Lags kernel k (s.at j) (m.threads j) (Reach-Calm k r j) (s.lags j) in
    elim (Bool-cases (critical k (m.threads j).local)) [
      | inl e ↦
          let on_i = subst (λ l. critical k l ≡ true) (at_i h) h in
          let on_j = subst (λ l. critical k l ≡ true) (at_j e) e in
          let alone = mutual_exclusion kernel k n state few s.reached i j p q ne on_i in absurd (cc)
      | inr e ↦ e
    ]
