-- ===== src/LockedBarrier/Buffered.antt =====
-- Store buffers do not let a thread through the barrier under the lock early: every run with
-- buffers has a run without them, in which each thread can go on to where it is with its buffer.
use htsynch.Base.{
  ℕ, ◌^◌, ◌<◌, ◌≤◌, ◌≡◌, ◌≢◌, refl, sym, ap, ◌∙◌, List, [], ◌∷◌, ◌++◌, arith, ℕ_discrete, update,
  le-total, true, some,
}
use mathlib.Core.Path.{subst}
use htsynch.Base.Moved.{goes, Moved, unmoved, Moved-goes, Moved-all}
use htsynch.LockedBarrier.Defs
use htsynch.LockedBarrier.Defs.{SpinBarrier, Variant, function, code, try}
use htsynch.LockedBarrier.Invariant.{owns}
use htsynch.LockedBarrier.Safety.{Reach-Inv, others_quiet}
use htsynch.LockedBarrier.Buffers.{
  Store, apply, view, Thread, Machine, put, core_after, is_plain, stored, Step, plain, store,
  locked, drain, Reach, start, later,
}
use htsynch.LockedBarrier.Path.{
  here, Behind, Follows, PathTo-quiet, PathTo-store, PathTo-drain, PathTo-owns, PathTo-finish,
  PathTo-arrived, quiet_memory,
}

append-nonempty : (b : List Store) (s : Store) → ¬ (b ++ s ∷ [] ≡ [])
append-nonempty [] s e = absurd (cc)
append-nonempty (s' ∷ ss) s e = absurd (cc)

-- A step of a thread, without its buffer and with it.
module _ (m : SpinBarrier) (a t : Defs.Thread) (v : Variant) where
  level-Follows :
      (b : List Store) (m' : SpinBarrier)
      → b ≡ []
      → t ≡ a
      → (code v m t).0 ≡ m'
      → Follows (code v (view m b) t).1 m a m' b
  level-Follows b m' e same q =
      let there : (code v (view m b) t).1 ≡ (code v m a).1 = rw (e, same) refl in
      (
        v ∷ [],
        ap (λ (x : Defs.Thread). (code v m x).0) (sym same) ∙ q,
        record { path = here there e; level = λ _. there },
      )

  plain-Follows :
      (b : List Store)
      → Behind t m a b
      → is_plain t.pc ≡ true
      → Follows (code v (view m b) t).1 m a m b
  plain-Follows [] h p = level-Follows [] m refl (h.level refl) (quiet_memory m t v p)
  plain-Follows (s ∷ ss) h p =
      ([], refl, record { path = PathTo-quiet v h.path p; level = λ e. absurd (cc) })

  store-Follows :
      (b : List Store) (s : Store)
      → Behind t m a b
      → stored t.pc (view m b) t ≡ some s
      → Follows (code v (view m b) t).1 m a m (b ++ s ∷ [])
  store-Follows b s h p = (
    [],
    refl,
    record { path = PathTo-store v s h.path p; level = λ e. absurd (append-nonempty b s e) },
  )

  locked-Follows :
      (b : List Store)
      → Behind t m a b
      → b ≡ []
      → Follows (code v (view m b) t).1 m a (code v m t).0 b
  locked-Follows b h e = level-Follows b (code v m t).0 e (h.level e) refl

-- The exchange of a taken lock leaves the memory as it is.
try_taken :
    (m : SpinBarrier) (t : Defs.Thread) (v : Variant) → t.pc ≡ try → m.lock ≡ 1 → (code v m t).0 ≡ m
unfolding code
try_taken m t function h e = ground arith
try_taken m t v h e = ground arith

-- A reachable state without buffers.
abbrev pub Serially : ℕ → SpinBarrier → (ℕ → Defs.Thread) → Type 0
Serially n b f = Defs.Reach n (record { barrier = b; threads = f })

module _ (n : ℕ) where
  -- One that agrees with a machine.
  pub record Serial (m : Machine) : Type 0 where
    pub at : ℕ → Defs.Thread
    pub reached : Serially n m.memory at
    pub behinds : (j : ℕ) → j < n → Behind (m.threads j).core m.memory (at j) (m.threads j).buffer

  -- A thread with stores in its buffer holds the lock, so no other has any.
  pending-lock :
      (m : Machine) (s : Serial m)
      → n < 2 ^ 31
      → (i : ℕ) (x : Store) (xs : List Store) → i < n
      → (m.threads i).buffer ≡ x ∷ xs
      → m.memory.lock ≡ 1
  pending-lock m s small i x xs lt e =
      let inv = Reach-Inv (omega arith) small s.reached in
      omega (
        arith,
        inv.held,
        inv.single,
        le-total owns n s.at i lt,
        PathTo-owns x xs e (s.behinds i lt).path,
      )

  one_pending :
      (m : Machine) (s : Serial m)
      → n < 2 ^ 31
      → (i j : ℕ) (x y : Store) (xs ys : List Store) → i < n
      → j < n
      → i ≢ j
      → (m.threads i).buffer ≡ x ∷ xs
      → (m.threads j).buffer ≡ y ∷ ys
      → ⊥
  one_pending m s small i j x y xs ys p q ne e f =
      let inv = Reach-Inv (omega arith) small s.reached in
      let quiet =
        others_quiet n s.at i j (omega (arith, inv.held, inv.single)) p q
          (PathTo-owns x xs e (s.behinds i p).path) ne in
      omega (arith, quiet, PathTo-owns y ys f (s.behinds j q).path)

  -- The others may have stores in their buffers only if the memory stays as it is.
  Behind-memory :
      (t : Defs.Thread) (m m' : SpinBarrier) (a : Defs.Thread) (b : List Store)
      → ((x : Store) (xs : List Store) → b ≡ x ∷ xs → m' ≡ m)
      → Behind t m a b
      → Behind t m' a b
  Behind-memory t m m' a [] same h = record { path = here (h.level refl) refl; level = h.level }
  Behind-memory t m m' a (x ∷ xs) same h =
      subst (λ y. Behind t y a (x ∷ xs)) (sym (same x xs refl)) h

  pub closed :
      (b : SpinBarrier) (f : ℕ → Defs.Thread) (v : Variant) (i : ℕ)
      → i < n
      → Serially n b f
      → Serially n (code v b (f i)).0 (update f i (code v b (f i)).1)
  closed b f v i lt r = Defs.later r v i lt

  put-Serial :
      (m : Machine) (s : Serial m) (i : ℕ) (b : SpinBarrier) (t : Thread)
      → i < n
      → Follows t.core m.memory (s.at i) b t.buffer
      → ((j : ℕ)
          → i ≢ j
          → j < n
          → (x : Store) (xs : List Store) → (m.threads j).buffer ≡ x ∷ xs
          → b ≡ m.memory)
      → Serial (put i t b m)
  put-Serial m s i b t lt (vs, e, h) alone =
      let v =
        Moved-goes (Serially n) code n closed vs s.at i m.memory (s.at i) lt
          (unmoved (Serially n) m.memory s.at i s.reached) in
      let a' = (goes code vs m.memory (s.at i)).1 in
      let v' : Moved (Serially n) s.at i b a' = subst (λ x. Moved (Serially n) s.at i x a') e v in
      record {
        at = v'.threads;
        reached = v'.reached;
        behinds =
            Moved-all (Serially n)
              (λ (j : ℕ) (a : Defs.Thread) (u : Thread). j < n → Behind u.core b a u.buffer) s.at
              m.threads i b a' t v' (λ _. h)
              (λ j ne q.
                Behind-memory (m.threads j).core m.memory b (s.at j) (m.threads j).buffer
                  (alone j ne q) (s.behinds j q));
      }

  Step-Serial : {m m' : Machine} → n < 2 ^ 31 → Step n m m' → Serial m → Serial m'
  Step-Serial {m} small (plain v i lt h) s =
      let t = m.threads i in
      put-Serial m s i m.memory (record t { core = core_after v m.memory t }) lt
        (plain-Follows m.memory (s.at i) t.core v t.buffer (s.behinds i lt) h)
        (λ j ne q x xs e. refl)
  Step-Serial {m} small (store v i w lt h) s =
      let t = m.threads i in
      put-Serial m s i m.memory
        (record { core = core_after v m.memory t; buffer = t.buffer ++ w ∷ [] }) lt
        (store-Follows m.memory (s.at i) t.core v t.buffer w (s.behinds i lt) h)
        (λ j ne q x xs e. refl)
  Step-Serial {m} small (locked v i lt h e) s =
      let t = m.threads i in
      put-Serial m s i (code v m.memory t.core).0 (record t { core = core_after v m.memory t }) lt
        (locked-Follows m.memory (s.at i) t.core v t.buffer (s.behinds i lt) e)
        (λ j ne q x xs f. try_taken m.memory t.core v h (pending-lock m s small j x xs q f))
  Step-Serial {m} small (drain i w ws lt e) s =
      let t = m.threads i in
      put-Serial m s i (apply w m.memory) (record t { buffer = ws }) lt
        (PathTo-drain w ws (s.behinds i lt).path e)
        (λ j ne q x xs f. absurd (one_pending m s small i j w x ws xs lt q ne e f))

  Reach-Serial : {m : Machine} → n < 2 ^ 31 → Reach n m → Serial m
  Reach-Serial small start = record {
    at = (Defs.init n).threads;
    reached = Defs.start;
    behinds = λ j q. record { path = here refl refl; level = λ _. refl };
  }
  Reach-Serial small (later r st) = Step-Serial small st (Reach-Serial small r)

  -- A reachable state without buffers, in which thread `i` is where it is with its buffer, and the
  -- others have arrived at no more calls than with theirs.
  pub record Finished (m : Machine) (i : ℕ) : Type 0 where
    pub barrier : SpinBarrier
    pub threads : ℕ → Defs.Thread
    pub reached : Serially n barrier threads
    pub finished : threads i ≡ (m.threads i).core
    pub behind : (j : ℕ) → j < n → (threads j).arrived ≤ (m.threads j).core.arrived

  pub Reach-Finished : {m : Machine} → n < 2 ^ 31 → Reach n m → (i : ℕ) → i < n → Finished m i
  Reach-Finished {m} small r i lt =
      let s = Reach-Serial small r in
      let (vs, g) = PathTo-finish (s.behinds i lt).path in
      let v =
        Moved-goes (Serially n) code n closed vs s.at i m.memory (s.at i) lt
          (unmoved (Serially n) m.memory s.at i s.reached) in
      let e = v.at_thread ∙ g in
      record {
        barrier = _;
        threads = v.threads;
        reached = v.reached;
        finished = e;
        behind = λ j q. elim (ℕ_discrete i j) [
          | yes same ↦
              subst (λ k. (v.threads k).arrived ≤ (m.threads k).core.arrived) same
                (omega (arith, ap (λ (t : Defs.Thread). t.arrived) e))
          | no ne ↦ omega (
            arith,
            ap (λ (t : Defs.Thread). t.arrived) (v.others j ne),
            PathTo-arrived (s.behinds j q).path,
          )
        ];
      }
