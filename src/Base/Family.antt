-- ===== src/Base/Family.antt =====
-- Families `ℕ → A` indexed by thread: update at one index, and sums over the first `n` threads.
use Prim.Native.Nat.{ℕ, zero, suc, ◌+◌, ◌≤◌, ◌<◌}
use mathlib.Core.Path.{◌≡◌, refl}
use mathlib.Core.Logic.{ite}
use native.Mathlib.Decide.{dec_lt, ℕ_discrete}
use native.Mathlib.Omega.{arith}

abbrev pub update {ℓ} : {A : Type ℓ} → (ℕ → A) → ℕ → A → ℕ → A
update ts at t k = ite (ℕ_discrete at k) t (ts k)

module _ {ℓ} {A : Type ℓ} (share : A → ℕ) where
  -- The shares of the threads below `n`, added up.
  pub total : ℕ → (ℕ → A) → ℕ
  total zero ts = 0
  total (suc last) ts = total last ts + share (ts last)

  -- An update outside the sum leaves it alone; one inside trades the old share for the new one.
  total-update_above :
      (n : ℕ) (ts : ℕ → A) (at : ℕ) (t : A) → n ≤ at → total n (update ts at t) ≡ total n ts
  unfolding total
  total-update_above zero ts at t above = refl
  total-update_above (suc last) ts at t above = ground (arith, total-update_above last ts at t)

  pub total-update :
      (n : ℕ) (ts : ℕ → A) (at : ℕ) (t : A)
      → at < n
      → total n (update ts at t) + share (ts at) ≡ total n ts + share t
  unfolding total
  total-update zero ts at t inside = absurd (omega arith)
  total-update (suc last) ts at t inside = elim (ℕ_discrete at last) [
    | yes here ↦ ground (arith, total-update_above last ts at t)
    | no before ↦ ground (arith, total-update last ts at t (omega arith))
  ]

  pub total-le : ((t : A) → share t ≤ 1) → (n : ℕ) (ts : ℕ → A) → total n ts ≤ n
  unfolding total
  total-le unit zero ts = omega arith
  total-le unit (suc last) ts = omega (arith, total-le unit last ts, unit (ts last))

  pub total-eq-zero : (n : ℕ) (ts : ℕ → A) → ((k : ℕ) → k < n → share (ts k) ≡ 0) → total n ts ≡ 0
  unfolding total
  total-eq-zero zero ts none_of = refl
  total-eq-zero (suc last) ts none_of =
      omega
        (arith, none_of last (omega arith), total-eq-zero last ts (λ k p. none_of k (omega arith)))

  -- One thread's share, and the shares of two threads, fit into the sum.
  pub le-total : (n : ℕ) (f : ℕ → A) (i : ℕ) → i < n → share (f i) ≤ total n f
  unfolding total
  le-total zero f i h = absurd (omega arith)
  le-total (suc n) f i h = elim (dec_lt i n) [
    | yes below ↦ omega (arith, le-total n f i below)
    | no last ↦ let e : i ≡ n = omega arith in ground (arith, e)
  ]

  pub two-le-total :
      (n : ℕ) (f : ℕ → A) (i j : ℕ) → i < j → j < n → share (f i) + share (f j) ≤ total n f
  unfolding total
  two-le-total zero f i j p h = absurd (omega arith)
  two-le-total (suc n) f i j p h = elim (dec_lt j n) [
    | yes below ↦ omega (arith, two-le-total n f i j p below)
    | no last ↦ let e : j ≡ n = omega arith in ground (arith, e, le-total n f i)
  ]

  -- A full sum of shares that are at most 1 has every share equal to 1.
  pub full-total :
      ((a : A) → share a ≤ 1)
      → (n : ℕ) (f : ℕ → A) → total n f ≡ n
      → (i : ℕ) → i < n
      → share (f i) ≡ 1
  unfolding total
  full-total small zero f e i h = absurd (omega arith)
  full-total small (suc n) f e i h = elim (dec_lt i n) [
    | yes below ↦ full-total small n f (omega (arith, small (f n), total-le small n f)) i below
    | no last ↦ let q : i ≡ n = omega arith in ground (arith, q, small (f n), total-le small n f)
  ]

-- What holds of the new value and of every old one holds of the updated family.
pub update-all {ℓ κ} :
    {A : Type ℓ} (P : A → Type κ) (f : ℕ → A) (i : ℕ) {a : A}
    → P a
    → ((j : ℕ) → P (f j))
    → (j : ℕ) → P (update f i a j)
update-all P f i {a} new old j = elim (ℕ_discrete i j) as (λ c. P (ite c a (f j))) [
  | yes _ ↦ new
  | no _ ↦ old j
]

-- All members below `n` satisfy `P`.
abbrev pub Every {ℓ κ} : {A : Type ℓ} → ℕ → (A → Type κ) → (ℕ → A) → Type κ
Every n P f = (i : ℕ) → i < n → P (f i)

pub Every-update {ℓ κ} :
    {A : Type ℓ} (n : ℕ) (P : A → Type κ) (f : ℕ → A) (i : ℕ) (a : A)
    → P a
    → Every n P f
    → Every n P (update f i a)
Every-update n P f i a new old j p = elim (ℕ_discrete i j) as (λ c. P (ite c a (f j))) [
  | yes _ ↦ new
  | no _ ↦ old j p
]

-- A sum that is not zero has a member with a share.
pub total-pos {ℓ} :
    {A : Type ℓ} (share : A → ℕ) (n : ℕ) (f : ℕ → A)
    → 0 < total share n f
    → (i : ℕ) × (i < n) × (0 < share (f i))
unfolding total
total-pos share zero f h = absurd (omega arith)
total-pos share (suc n) f h = elim (dec_lt 0 (share (f n))) [
  | yes here ↦ (n, omega arith, here)
  | no not_here ↦ let (i, lt, pos) = total-pos share n f (omega arith) in (i, omega arith, pos)
]

-- A sum of shares that are at most 1, if it is not full, misses a member.
pub total-lt {ℓ} :
    {A : Type ℓ} (share : A → ℕ) (n : ℕ) (f : ℕ → A)
    → total share n f < n
    → (i : ℕ) × (i < n) × (share (f i) ≡ 0)
unfolding total
total-lt share zero f h = absurd (omega arith)
total-lt share (suc n) f h = elim (dec_lt 0 (share (f n))) [
  | yes here ↦ let (i, lt, e) = total-lt share n f (omega arith) in (i, omega arith, e)
  | no not_here ↦ (n, omega arith, omega arith)
]
