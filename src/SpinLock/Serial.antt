-- ===== src/SpinLock/Serial.antt =====
-- One word behind store buffers is as without them: every run of SpinLock/Buffers has a run of
-- SpinLock/System with the same memory, in which a thread with stores in its buffer stands before
-- the oldest of them.
use htsynch.Base.{ℕ, suc, ◌<◌, ◌≡◌, refl, sym, true, List, [], ◌∷◌, some, get_elem?}
use mathlib.Core.Path.{subst}
use htsynch.Base.Moved.{Moved, unmoved, Moved-move, Moved-all}
use htsynch.Asm.{Instr, Local, exec, step, movl}
use htsynch.SpinLock.Lag.{Runs, here, more, Lags, Lags-plain, Lags-store, step-fetched, exec-plain}
use htsynch.SpinLock.System
use htsynch.SpinLock.System.{turn}
use htsynch.SpinLock.Buffers
use htsynch.SpinLock.Buffers.{
  is_plain, is_locked, Thread, Machine, view, put, plain_after, store_after, locked_after, Step,
  plain, store, locked, drain, Reach, start, later,
}

module _ (kernel : ℕ → ℕ) (code : List Instr) (n w0 : ℕ) where
  -- A reachable state without buffers.
  abbrev pub Serially : ℕ → (ℕ → Local) → Type 0
  Serially w f = System.Reach kernel code n w0 (record { word = w; threads = f })

  -- A reachable state in which the word is `w` and thread `i` at `c`, the others as in `f`.
  abbrev MovedTo : (ℕ → Local) → ℕ → ℕ → Local → Type 0
  MovedTo = Moved Serially

  Moved-exec :
      (f : ℕ → Local) (i w : ℕ) (a : Local) (c : Instr)
      → i < n
      → MovedTo f i w a
      → get_elem? code a.pc ≡ some c
      → MovedTo f i (exec kernel c w a).0 (exec kernel c w a).1
  Moved-exec f i w a c lt m found =
      Moved-move Serially f i w (exec kernel c w a).0 a (exec kernel c w a).1 m
        (System.later m.reached (turn i lt run))
    where
      run : step kernel code w (m.threads i) ≡ some (exec kernel c w a)
      run = rw m.at_thread (step-fetched kernel code c w a found)

  Moved-Runs :
      (f : ℕ → Local) (i k : ℕ) (a b : Local)
      → i < n
      → MovedTo f i k a
      → Runs kernel code k a b
      → MovedTo f i k b
  Moved-Runs f i k a b lt m (here e) = subst (MovedTo f i k) (sym e) m
  Moved-Runs f i k a _ lt m (more {b} r c found p) =
      subst (λ w. MovedTo f i w (exec kernel c k b).1) (exec-plain kernel code c k b p)
        (Moved-exec f i k b c lt (Moved-Runs f i k a b lt m r) found)

  -- A run without buffers that agrees with a machine.
  pub record Serial (m : Machine) : Type 0 where
    pub at : ℕ → Local
    pub reached : Serially m.memory at
    pub lags : (j : ℕ) → Lags kernel code (m.threads j).buffer (at j) (m.threads j).local

  from_Serial : (m : Machine) (s : Serial m) (i : ℕ) → MovedTo s.at i m.memory (s.at i)
  from_Serial m s i = unmoved Serially m.memory s.at i s.reached

  put-Serial :
      (m : Machine) (s : Serial m) (i w : ℕ) (c : Local) (t : Thread)
      → MovedTo s.at i w c
      → Lags kernel code t.buffer c t.local
      → Serial (put i t w m)
  put-Serial m s i w c t v h = record {
    at = v.threads;
    reached = v.reached;
    lags =
        Moved-all Serially (λ (j : ℕ) (a : Local) (u : Thread). Lags kernel code u.buffer a u.local)
          s.at m.threads i w c t v h (λ j ne. s.lags j);
  }

  plain_step :
      (m : Machine) (s : Serial m) (i : ℕ) (c : Instr) (b : List ℕ) (l : Local)
      → i < n
      → get_elem? code l.pc ≡ some c
      → is_plain c ≡ true
      → Lags kernel code b (s.at i) l
      → (a : Local) × MovedTo s.at i m.memory a
        × Lags kernel code b a (exec kernel c (view m.memory b) l).1
  unfolding Lags
  plain_step m s i c [] l lt f p e = (
    (exec kernel c m.memory l).1,
    subst (λ w. MovedTo s.at i w (exec kernel c m.memory l).1)
        (exec-plain kernel code c m.memory l p)
        (Moved-exec s.at i m.memory l c lt
          (subst (MovedTo s.at i m.memory) (sym e) (from_Serial m s i)) f),
    refl,
  )
  plain_step m s i c (k ∷ ks) l lt f p h =
      (s.at i, from_Serial m s i, Lags-plain kernel code c m.memory k ks (s.at i) l h f p)

  locked_step :
      (m : Machine) (s : Serial m) (i : ℕ) (c : Instr) (b : List ℕ) (l : Local)
      → i < n
      → get_elem? code l.pc ≡ some c
      → b ≡ []
      → Lags kernel code b (s.at i) l
      → let r = exec kernel c m.memory l in MovedTo s.at i r.0 r.1 × Lags kernel code b r.1 r.1
  unfolding Lags
  locked_step m s i c [] l lt f _ e = (
    Moved-exec s.at i m.memory l c lt (subst (MovedTo s.at i m.memory) (sym e) (from_Serial m s i))
        f,
    refl,
  )
  locked_step m s i c (k ∷ ks) l lt f e h = absurd (cc)

  drain_step :
      (m : Machine) (s : Serial m) (i k : ℕ) (ks b : List ℕ) (l : Local)
      → i < n
      → b ≡ k ∷ ks
      → Lags kernel code b (s.at i) l
      → (a : Local) × MovedTo s.at i k a × Lags kernel code ks a l
  unfolding Lags
  drain_step m s i k ks b l lt e h =
      let a = s.at i in
      let (c, f, r, rest) = subst (λ b. Lags kernel code b a l) e h in
      let v = Moved-exec s.at i m.memory a (movl k) lt (from_Serial m s i) f in
      (c, Moved-Runs s.at i k (record a { pc = suc a.pc }) c lt v r, rest)

  Step-Serial : {m m' : Machine} → Step kernel code n m m' → Serial m → Serial m'
  Step-Serial {m} (plain i c lt f p) s =
      let t = m.threads i in
      let (a, v, h) = plain_step m s i c t.buffer t.local lt f p (s.lags i) in
      put-Serial m s i m.memory a (plain_after kernel c m.memory t) v h
  Step-Serial {m} (store i k lt f) s =
      let t = m.threads i in
      put-Serial m s i m.memory (s.at i) (store_after k t) (from_Serial m s i)
        (Lags-store kernel code k t.buffer (s.at i) t.local (s.lags i) f)
  Step-Serial {m} (locked i c lt f _ e) s =
      let t = m.threads i in
      let (v, h) = locked_step m s i c t.buffer t.local lt f e (s.lags i) in
      put-Serial m s i _ _ (locked_after kernel c m.memory t) v h
  Step-Serial {m} (drain i k ks lt e) s =
      let t = m.threads i in
      let (a, v, h) = drain_step m s i k ks t.buffer t.local lt e (s.lags i) in
      put-Serial m s i k a (record t { buffer = ks }) v h

  init-Serial : Serial (Buffers.init w0)
  unfolding Lags
  init-Serial = record { at = (System.init w0).threads; reached = System.start; lags = λ j. refl }

  pub Reach-Serial : {m : Machine} → Reach kernel code n w0 m → Serial m
  Reach-Serial start = init-Serial
  Reach-Serial (later r st) = Step-Serial st (Reach-Serial r)
