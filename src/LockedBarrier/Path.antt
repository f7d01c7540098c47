-- ===== src/LockedBarrier/Path.antt =====
-- What a thread with stores in its buffer has done since the oldest of them, as steps of the thread
-- alone on the memory as it is.
use htsynch.Base.{◌≡◌, refl, sym, ap, ◌∙◌, true, List, [], ◌∷◌, ◌++◌, some, arith, ◌≤◌}
use mathlib.Core.Path.{subst}
use htsynch.Base.Moved.{goes}
use htsynch.LockedBarrier.Defs.{SpinBarrier, Thread, Variant, function, code}
use htsynch.LockedBarrier.Invariant.{owns}
use htsynch.LockedBarrier.Counts.{arrived-le}
use htsynch.LockedBarrier.Buffers.{Store, apply, view, is_plain, stored}

-- `t` is where the steps end.
pub data PathTo (t : Thread) : SpinBarrier → Thread → List Store → Type 0 where
  here : {m : SpinBarrier} {a : Thread} {b : List Store} → t ≡ a → b ≡ [] → PathTo t m a b
  quiet :
      {m : SpinBarrier} {a : Thread} {b : List Store} (v : Variant)
      → is_plain a.pc ≡ true
      → PathTo t m (code v m a).1 b
      → PathTo t m a b
  storing :
      {m : SpinBarrier} {a : Thread} {b : List Store} (v : Variant) (s : Store) (ss : List Store)
      → stored a.pc m a ≡ some s
      → b ≡ s ∷ ss
      → PathTo t (apply s m) (code v m a).1 ss
      → PathTo t m a b

-- What the steps do to the memory.
module _ (m : SpinBarrier) (a : Thread) where
  pub quiet_memory : (v : Variant) → is_plain a.pc ≡ true → (code v m a).0 ≡ m
  unfolding code
  quiet_memory function h = ground arith
  quiet_memory v h = ground arith

  pub stored_memory :
      (v : Variant) (s : Store) → stored a.pc m a ≡ some s → (code v m a).0 ≡ apply s m
  unfolding code
  stored_memory function s h = ground arith
  stored_memory v s h = ground arith

  -- A thread that stores owns the lock, and a thread does not come to own it without the exchange.
  stored-owns : (s : Store) → stored a.pc m a ≡ some s → owns a ≡ 1
  stored-owns s h = ground arith

  quiet-owns : (v : Variant) → is_plain a.pc ≡ true → owns (code v m a).1 ≡ 1 → owns a ≡ 1
  unfolding code
  quiet-owns function h o = ground arith
  quiet-owns v h o = ground arith

pub PathTo-owns :
    {t : Thread} {m : SpinBarrier} {a : Thread} {b : List Store} (s : Store) (ss : List Store)
    → b ≡ s ∷ ss
    → PathTo t m a b
    → owns a ≡ 1
PathTo-owns s ss e (here f g) = absurd (cc)
PathTo-owns {m = m} {a} s ss e (quiet v h p) = quiet-owns m a v h (PathTo-owns s ss e p)
PathTo-owns {m = m} {a} s ss e (storing v s' ss' h f p) = stored-owns m a s' h

pub PathTo-quiet :
    {t : Thread} {m : SpinBarrier} {a : Thread} {b : List Store} (v : Variant)
    → PathTo t m a b
    → is_plain t.pc ≡ true
    → PathTo (code v (view m b) t).1 m a b
PathTo-quiet {t} {m} {a} v (here e f) h =
    quiet v (subst (λ (x : Thread). is_plain x.pc ≡ true) e h) (here (rw (f, e) refl) f)
PathTo-quiet v (quiet w g p) h = quiet w g (PathTo-quiet v p h)
PathTo-quiet {t} {m} {a} {b} v (storing w s ss g f p) h = storing w s ss g f (
    subst (λ x. PathTo (code v (view m x) t).1 (apply s m) (code w m a).1 ss) (sym f)
      (PathTo-quiet v p h))

pub PathTo-store :
    {t : Thread} {m : SpinBarrier} {a : Thread} {b : List Store} (v : Variant) (s : Store)
    → PathTo t m a b
    → stored t.pc (view m b) t ≡ some s
    → PathTo (code v (view m b) t).1 m a (b ++ s ∷ [])
PathTo-store {t} {m} {a} v s (here e f) h =
    storing v s [] (rw (f, e) at h) (ap (λ x. x ++ s ∷ []) f) (here (rw (f, e) refl) refl)
PathTo-store v s (quiet w g p) h = quiet w g (PathTo-store v s p h)
PathTo-store {t} {m} {a} {b} v s (storing w s' ss g f p) h =
    storing w s' (ss ++ s ∷ []) g (ap (λ x. x ++ s ∷ []) f) (
      subst (λ x. PathTo (code v (view m x) t).1 (apply s' m) (code w m a).1 (ss ++ s ∷ [])) (sym f)
        (PathTo-store v s p (subst (λ x. stored t.pc (view m x) t ≡ some s) f h)))

-- A thread with an empty buffer is where it would be without one.
pub record Behind (t : Thread) (m : SpinBarrier) (a : Thread) (b : List Store) : Type 0 where
  pub path : PathTo t m a b
  pub level : b ≡ [] → t ≡ a

-- Some steps without a buffer that lead to the memory `m'` and behind `t`.
abbrev pub Follows : Thread → SpinBarrier → Thread → SpinBarrier → List Store → Type 0
Follows t m a m' b =
    (vs : List Variant) × ((goes code vs m a).0 ≡ m') × Behind t m' (goes code vs m a).1 b

step-Follows :
    (t : Thread) (m : SpinBarrier) (a : Thread) (v : Variant) (m1 m' : SpinBarrier) (b : List Store)
    → (code v m a).0 ≡ m1
    → Follows t m1 (code v m a).1 m' b
    → Follows t m a m' b
step-Follows t m a v m1 m' b e (vs, g, h) = (
  v ∷ vs,
  subst (λ (x : SpinBarrier). (goes code vs x (code v m a).1).0 ≡ m') (sym e) g,
  subst (λ (x : SpinBarrier). Behind t m' (goes code vs x (code v m a).1).1 b) (sym e) h,
)

-- A thread can make the steps up to its next store.
catch_up :
    {t : Thread} {m : SpinBarrier} {a : Thread} {b : List Store}
    → PathTo t m a b
    → Follows t m a m b
catch_up {t} {m} {a} {b} (here e f) = ([], refl, record { path = here e f; level = λ g. e })
catch_up {t} {m} {a} {b} (quiet v h p) =
    step-Follows t m a v m m b (quiet_memory m a v h) (catch_up p)
catch_up {t} {m} {a} {b} (storing v s ss h f p) =
    ([], refl, record { path = storing v s ss h f p; level = λ g. absurd (cc) })

pub PathTo-drain :
    {t : Thread} {m : SpinBarrier} {a : Thread} {b : List Store} (s : Store) (ss : List Store)
    → PathTo t m a b
    → b ≡ s ∷ ss
    → Follows t m a (apply s m) ss
PathTo-drain s ss (here f g) e = absurd (cc)
PathTo-drain {t} {m} {a} s ss (quiet v h p) e =
    step-Follows t m a v m (apply s m) ss (quiet_memory m a v h) (PathTo-drain s ss p e)
PathTo-drain {t} {m} {a} s ss (storing v s' ss' h f p) e =
    let same : s' ≡ s = cc in
    let rest : ss' ≡ ss = cc in
    step-Follows t m a v (apply s m) (apply s m) ss
      (stored_memory m a v s' h ∙ ap (λ (x : Store). apply x m) same)
      (catch_up (
        subst (λ x. PathTo t (apply x m) (code v m a).1 ss) same
          (subst (λ x. PathTo t (apply s' m) (code v m a).1 x) rest p)))

-- A thread can make all of them.
pub PathTo-finish :
    {t : Thread} {m : SpinBarrier} {a : Thread} {b : List Store}
    → PathTo t m a b
    → (vs : List Variant) × ((goes code vs m a).1 ≡ t)
PathTo-finish (here e f) = ([], sym e)
PathTo-finish {t} {m} {a} (quiet v h p) =
    let (vs, g) = PathTo-finish p in
    (
      v ∷ vs,
      subst (λ (x : SpinBarrier). (goes code vs x (code v m a).1).1 ≡ t)
          (sym (quiet_memory m a v h)) g,
    )
PathTo-finish {t} {m} {a} (storing v s ss h f p) =
    let (vs, g) = PathTo-finish p in
    (
      v ∷ vs,
      subst (λ (x : SpinBarrier). (goes code vs x (code v m a).1).1 ≡ t)
          (sym (stored_memory m a v s h)) g,
    )

pub PathTo-arrived :
    {t : Thread} {m : SpinBarrier} {a : Thread} {b : List Store}
    → PathTo t m a b
    → a.arrived ≤ t.arrived
PathTo-arrived (here e f) = omega (arith, ap (λ (x : Thread). x.arrived) e)
PathTo-arrived {m = m} {a} (quiet v h p) = omega (arith, arrived-le v m a, PathTo-arrived p)
PathTo-arrived {m = m} {a} (storing v s ss h f p) =
    omega (arith, arrived-le v m a, PathTo-arrived p)
