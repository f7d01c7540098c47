-- ===== src/SpinLock/Lag.antt =====
-- A thread with stores in its buffer, and the same thread before the oldest of them.
use htsynch.Base.{
  ℕ, suc, ◌≡◌, refl, sym, ap, true, List, [], ◌∷◌, ◌++◌, Option, none, some, get_elem?,
}
use mathlib.Core.Path.{subst}
use htsynch.Asm.{Instr, Local, exec, step, lock_decl, xchgl, movl}
use htsynch.SpinLock.Buffers.{is_plain, view}

module _ (kernel : ℕ → ℕ) (code : List Instr) where
  -- Plain instructions, with `k` in the word.
  pub data Runs (k : ℕ) (a : Local) : Local → Type 0 where
    here : {b : Local} → b ≡ a → Runs k a b
    more :
        {b : Local}
        → Runs k a b
        → (c : Instr) → get_elem? code b.pc ≡ some c
        → is_plain c ≡ true
        → Runs k a (exec kernel c k b).1

  -- `a` stands before the stores in the buffer and `b` behind them.
  unfoldable pub Lags : List ℕ → Local → Local → Type 0
  Lags [] a b = b ≡ a
  Lags (k ∷ ks) a b =
      (c : Local) × (get_elem? code a.pc ≡ some (movl k))
      × Runs k (record a { pc = suc a.pc }) c
      × Lags ks c b

  pub Lags-empty : (b : List ℕ) (a l : Local) → b ≡ [] → Lags b a l → l ≡ a
  unfolding Lags
  Lags-empty [] a l e h = h
  Lags-empty (k ∷ ks) a l e h = absurd (cc)

  pub exec-plain : (c : Instr) (w : ℕ) (l : Local) → is_plain c ≡ true → (exec kernel c w l).0 ≡ w
  exec-plain lock_decl w l h = cc
  exec-plain xchgl w l h = cc
  exec-plain (movl k) w l h = cc
  exec-plain _ w l h = refl

  pub step-fetched :
      (c : Instr) (w : ℕ) (l : Local)
      → get_elem? code l.pc ≡ some c
      → step kernel code w l ≡ some (exec kernel c w l)
  unfolding step
  step-fetched c w l e =
      ap
        (λ (o : Option Instr). elim o as (λ _. Option (ℕ × Local)) [
          | none ↦ none
          | some i ↦ some (exec kernel i w l)
        ])
        e

  pub Lags-plain :
      (c : Instr) (w k : ℕ) (ks : List ℕ) (a b : Local)
      → Lags (k ∷ ks) a b
      → get_elem? code b.pc ≡ some c
      → is_plain c ≡ true
      → Lags (k ∷ ks) a (exec kernel c (view w (k ∷ ks)) b).1
  unfolding Lags
  Lags-plain c w k [] a b (d, f, r, e) g p = (
    (exec kernel c k b).1,
    f,
    more (subst (Runs k (record a { pc = suc a.pc })) (sym e) r) c g p,
    refl,
  )
  Lags-plain c w k (k' ∷ ks) a b (d, f, r, h) g p = (d, f, r, Lags-plain c k k' ks d b h g p)

  pub Lags-store :
      (k : ℕ) (ks : List ℕ) (a b : Local)
      → Lags ks a b
      → get_elem? code b.pc ≡ some (movl k)
      → Lags (ks ++ k ∷ []) a (record b { pc = suc b.pc })
  unfolding Lags
  Lags-store k [] a b e g = (
    record b { pc = suc b.pc },
    subst (λ (l : Local). get_elem? code l.pc ≡ some (movl k)) e g,
    here (ap (λ (l : Local). record l { pc = suc l.pc }) e),
    refl,
  )
  Lags-store k (k' ∷ ks) a b (d, f, r, h) g = (d, f, r, Lags-store k ks d b h g)
