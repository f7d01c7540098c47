-- ===== src/Barrier/Spec.antt =====
-- The promise of a barrier, with nothing said of how it is kept: a thread arrives at a call and
-- leaves it, and it leaves only when all threads have arrived.
use htsynch.Base.{
  ℕ, ◌+◌, ◌≤◌, ◌<◌, ◌≡◌, ◌≢◌, ◌⊎◌, refl, ap, ◌∙◌, inl, inr, arith, ℕ_discrete, update,
}
use mathlib.Core.Logic.{ite, if_pos, if_neg}
use std.Path.{fun_ext}

-- The calls that a thread has arrived at, and those that it has left.
pub record Calls : Type 0 where
  pub arrived : ℕ
  pub left : ℕ

abbrev pub init : ℕ → Calls
init _ = record { arrived = 0; left = 0 }

pub data Step (n : ℕ) (f g : ℕ → Calls) : Type 0 where
  arrive :
      (i : ℕ)
      → i < n
      → (f i).arrived ≡ (f i).left
      → g ≡ update f i (record { arrived = (f i).arrived + 1; left = (f i).left })
      → Step n f g
  leave :
      (i : ℕ)
      → i < n
      → (f i).arrived ≡ (f i).left + 1
      → ((j : ℕ) → j < n → (f i).left < (f j).arrived)
      → g ≡ update f i (record { arrived = (f i).arrived; left = (f i).left + 1 })
      → Step n f g

pub data Reach (n : ℕ) : (ℕ → Calls) → Type 0 where
  start : Reach n init
  later : {f g : ℕ → Calls} → Reach n f → Step n f g → Reach n g

-- No thread has left more calls than another has arrived at.
abbrev pub Apart : ℕ → (ℕ → Calls) → Type 0
Apart n f = (i : ℕ) → i < n → (j : ℕ) → j < n → (f i).left ≤ (f j).arrived

-- What one step of an implementation may do to the calls of its thread.
abbrev pub Moves : Calls → Calls → Type 0
Moves c d =
    (d ≡ c)
    ⊎ ((c.arrived ≡ c.left) × (d ≡ record { arrived = c.arrived + 1; left = c.left }))
    ⊎ ((c.arrived ≡ c.left + 1) × (d ≡ record { arrived = c.arrived; left = c.left + 1 }))

update_self : (f : ℕ → Calls) (i : ℕ) (c : Calls) → c ≡ f i → update f i c ≡ f
update_self f i c e = fun_ext (λ j. elim (ℕ_discrete i j) as (λ d. ite d c (f j) ≡ f j) [
  | yes same ↦ e ∙ ap f same
  | no ne ↦ refl
])

update_at : (f : ℕ → Calls) (i : ℕ) (c : Calls) → update f i c i ≡ c
update_at f i c = if_pos (ℕ_discrete i i) refl c (f i)

update_other : (f : ℕ → Calls) (i j : ℕ) (c : Calls) → i ≢ j → update f i c j ≡ f j
update_other f i j c ne = if_neg (ℕ_discrete i j) ne c (f j)

-- An implementation keeps the promise if each step moves one thread so, and keeps the calls apart.
pub Moves-Reach :
    (n : ℕ) (f : ℕ → Calls) (i : ℕ) (c : Calls)
    → Reach n f
    → i < n
    → Moves (f i) c
    → Apart n (update f i c)
    → Reach n (update f i c)
Moves-Reach n f i c r lt (inl same) apart = rw (update_self f i c same) r
Moves-Reach n f i c r lt (inr (inl (e, d))) apart = later r (arrive i lt e (ap (update f i) d))
Moves-Reach n f i c r lt (inr (inr (e, d))) apart =
    later r (leave i lt e all_here (ap (update f i) d))
  where
    all_here : (j : ℕ) → j < n → (f i).left < (f j).arrived
    all_here j p = elim (ℕ_discrete i j) [
      | yes same ↦ omega (arith, e, ap (λ (k : ℕ). (f k).arrived) same)
      | no ne ↦ omega (
        arith,
        apart i lt j p,
        ap (λ (x : Calls). x.left) (update_at f i c),
        ap (λ (x : Calls). x.arrived) (update_other f i j c ne),
        ap (λ (x : Calls). x.left) d,
      )
    ]

-- A family of threads as the calls that they count.
abbrev pub calls_of {ℓ} : {T : Type ℓ} → (T → Calls) → (ℕ → T) → ℕ → Calls
calls_of calls f i = calls (f i)

pub calls_of-update {ℓ} :
    {T : Type ℓ} (calls : T → Calls) (f : ℕ → T) (i : ℕ) (t : T)
    → calls_of calls (update f i t) ≡ update (calls_of calls f) i (calls t)
calls_of-update calls f i t = fun_ext (λ j.
    elim (ℕ_discrete i j) as (λ d. calls (ite d t (f j)) ≡ ite d (calls t) (calls (f j))) [
      | yes same ↦ refl
      | no ne ↦ refl
    ])

-- The same for a family of threads, one of which is replaced.
pub Moves-Reach_calls {ℓ} :
    {T : Type ℓ} (calls : T → Calls) (n : ℕ) (f : ℕ → T) (i : ℕ) (t : T)
    → Reach n (calls_of calls f)
    → i < n
    → Moves (calls (f i)) (calls t)
    → Apart n (calls_of calls (update f i t))
    → Reach n (calls_of calls (update f i t))
Moves-Reach_calls calls n f i t r lt moves apart =
    let e = calls_of-update calls f i t in
    rw e (Moves-Reach n (calls_of calls f) i (calls t) r lt moves (rw e at apart))
