-- ===== src/SenseBarrier/Ahead.antt =====
-- How far a thread with stores in its buffer is ahead of the same thread without one: past the
-- stores, and at most before the increment of its next call.
use htsynch.Base.{ℕ, zero, suc, ◌+◌, ◌≡◌, refl, Bool, true, false, List, [], ◌∷◌, ◌++◌, some, arith}
use mathlib.Core.Path.{subst}
use htsynch.SenseBarrier.Defs.{
  SpinBarrier, Pc, outside, flipped, last, publish, Thread, flip, spin_barrier_lsense,
}
use htsynch.SenseBarrier.Buffers.{Store, to_count, to_flag, apply, view, is_plain, stored}

-- Behind the return, in the next call if `again`.
abbrev gone : Bool → Thread → Thread
gone true a = record a { pc = flipped; lsense = flip a.lsense; left = a.left + 1 }
gone false a = record a { pc = outside; left = a.left + 1 }

pub data Ahead (a t : Thread) (b : List Store) : Type 0 where
  same : t ≡ a → b ≡ [] → Ahead a t b
  emptied : a.pc ≡ last → t ≡ record a { pc = publish } → b ≡ to_count 0 ∷ [] → Ahead a t b
  both :
      (again : Bool)
      → a.pc ≡ last
      → t ≡ gone again a
      → b ≡ to_count 0 ∷ to_flag a.lsense ∷ []
      → Ahead a t b
  released :
      (again : Bool) → a.pc ≡ publish → t ≡ gone again a → b ≡ to_flag a.lsense ∷ [] → Ahead a t b

-- Some steps of one thread without a buffer.
abbrev pub goes : ℕ → SpinBarrier → Thread → SpinBarrier × Thread
goes zero b a = (b, a)
goes (suc n) b a = let r = spin_barrier_lsense b a in goes n r.0 r.1

-- A thread is ahead of the place that some steps without a buffer lead to.
abbrev pub Follows : SpinBarrier → Thread → SpinBarrier → Thread → List Store → Type 0
Follows m a m' t b = (n : ℕ) × ((goes n m a).0 ≡ m') × Ahead (goes n m a).1 t b

plain_memory :
    (b : SpinBarrier) (a : Thread) → is_plain a.pc ≡ true → (spin_barrier_lsense b a).0 ≡ b
unfolding spin_barrier_lsense
plain_memory b a h = ground arith

module _ (m : SpinBarrier) (a : Thread) where
  pub plain-Ahead :
      (t : Thread) (b : List Store)
      → Ahead a t b
      → is_plain t.pc ≡ true
      → Follows m a m (spin_barrier_lsense (view m b) t).1 b
  unfolding spin_barrier_lsense
  plain-Ahead t b (same e f) h = (1, ground (arith, plain_memory m a), same (cc) f)
  plain-Ahead t b (emptied p e f) h = absurd (ground arith)
  plain-Ahead t b (both false p e f) h = (0, refl, both true p (ground arith) f)
  plain-Ahead t b (both true p e f) h = absurd (ground arith)
  plain-Ahead t b (released false p e f) h = (0, refl, released true p (ground arith) f)
  plain-Ahead t b (released true p e f) h = absurd (ground arith)

  first_store :
      (p : Pc) (s : Store)
      → a.pc ≡ p
      → stored p a.lsense ≡ some s
      → Follows m a m (spin_barrier_lsense m a).1 (s ∷ [])
  unfolding spin_barrier_lsense
  first_store last s e h = (0, refl, emptied e (ground arith) (ground arith))
  first_store publish s e h = (0, refl, released false e (ground arith) (ground arith))
  first_store outside s e h = absurd (ground arith)
  first_store p s e h = absurd (ground arith)

  pub store-Ahead :
      (t : Thread) (b : List Store) (s : Store)
      → Ahead a t b
      → stored t.pc t.lsense ≡ some s
      → Follows m a m (spin_barrier_lsense (view m b) t).1 (b ++ s ∷ [])
  unfolding spin_barrier_lsense
  store-Ahead t b s (same e f) h =
      rw (f, e)
        (first_store a.pc s refl (subst (λ (x : Thread). stored x.pc x.lsense ≡ some s) e h))
  store-Ahead t b s (emptied p e f) h = (0, refl, both false p (ground arith) (ground arith))
  store-Ahead t b s (both false p e f) h = absurd (ground arith)
  store-Ahead t b s (both true p e f) h = absurd (ground arith)
  store-Ahead t b s (released false p e f) h = absurd (ground arith)
  store-Ahead t b s (released true p e f) h = absurd (ground arith)

  pub locked-Ahead :
      (t : Thread) (b : List Store)
      → Ahead a t b
      → t.pc ≡ flipped
      → b ≡ []
      → Follows m a (spin_barrier_lsense m t).0 (spin_barrier_lsense (view m b) t).1 b
  locked-Ahead t b (same e f) h k = (1, rw e refl, same (rw (f, e) refl) f)
  locked-Ahead t b (emptied p e f) h k = absurd (ground arith)
  locked-Ahead t b (both again p e f) h k = absurd (ground arith)
  locked-Ahead t b (released again p e f) h k = absurd (ground arith)

  pub drain-Ahead :
      (t : Thread) (b : List Store) (s : Store) (ss : List Store)
      → Ahead a t b
      → b ≡ s ∷ ss
      → Follows m a (apply s m) t ss
  unfolding spin_barrier_lsense
  drain-Ahead t b s ss (same e f) h = absurd (ground arith)
  drain-Ahead t b s ss (emptied p e f) h = (1, ground arith, same (ground arith) (ground arith))
  drain-Ahead t b s ss (both again p e f) h =
      (1, ground arith, released again (ground arith) (ground arith) (ground arith))
  drain-Ahead t b s ss (released false p e f) h =
      (1, ground arith, same (ground arith) (ground arith))
  drain-Ahead t b s ss (released true p e f) h =
      (2, ground arith, same (ground arith) (ground arith))

-- The same returns, once the thread without a buffer has done its stores.
pub Ahead-arrived : (a t : Thread) (b : List Store) → Ahead a t b → t.arrived ≡ a.arrived
Ahead-arrived a t b (same e f) = cc
Ahead-arrived a t b (emptied p e f) = cc
Ahead-arrived a t b (both again p e f) = ground arith
Ahead-arrived a t b (released again p e f) = ground arith

pub Ahead-left :
    (m : SpinBarrier) (a t : Thread) (b : List Store)
    → Ahead a t b
    → (n : ℕ) × ((goes n m a).1.left ≡ t.left) × ((goes n m a).1.arrived ≡ a.arrived)
unfolding spin_barrier_lsense
Ahead-left m a t b (same e f) = (0, cc, refl)
Ahead-left m a t b (emptied p e f) = (0, cc, refl)
Ahead-left m a t b (both again p e f) = (2, ground arith, ground arith)
Ahead-left m a t b (released again p e f) = (1, ground arith, ground arith)
