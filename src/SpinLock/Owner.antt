-- ===== src/SpinLock/Owner.antt =====
-- The six locks as an abstract lock, which is free or has one owner.
use htsynch.Base.{
  ℕ, zero, suc, ◌<◌, ◌≡◌, ◌≢◌, ◌==◌, refl, sym, ap, ◌∙◌, Bool, true, false, Option, some, none,
  arith, update, ℕ_discrete, if◌then◌else◌, Bool-cases, ◌⊎◌, inl, inr,
}
use mathlib.Core.Path.{subst}
use mathlib.Core.Logic.{if_pos, if_neg}
use htsynch.Asm.{Local, step}
use htsynch.SpinLock.Safety.{Lock, plain, fast, cas, xchg, v2, macro, code, free, critical, Few}
use htsynch.SpinLock.System.{System, Reach, turn, later}
use htsynch.SpinLock.Plain
use htsynch.SpinLock.Fast
use htsynch.SpinLock.VersionTwo
use htsynch.SpinLock.Exchange

-- From the instruction that takes the lock up to the store that gives it back.
abbrev pub holds : Lock → Local → Bool
holds plain l = Plain.owns l == 1
holds fast l = Fast.owns l == 1
holds v2 l = VersionTwo.owns l == 1
holds cas l = Exchange.owns 1 l == 1
holds xchg l = Exchange.owns 0 l == 1
holds macro l = Exchange.owns 0 l == 1

abbrev pub owner : Lock → ℕ → (ℕ → Local) → Option ℕ
owner k zero f = none
owner k (suc n) f = if holds k (f n) then some n else owner k n f

-- What thread `i` may do to the owner of an abstract lock.
pub data Handover (i : ℕ) (o o' : Option ℕ) : Type 0 where
  keep : o' ≡ o → Handover i o o'
  take : o ≡ none → o' ≡ some i → Handover i o o'
  give : o ≡ some i → o' ≡ none → Handover i o o'

holds_one : (k : Lock) (l : Local) → critical k l ≡ true → holds k l ≡ true
holds_one plain l h = ground (arith, Plain.critical-owns l h)
holds_one fast l h = ground (arith, Fast.critical-owns l h)
holds_one v2 l h = ground (arith, VersionTwo.critical-owns l h)
holds_one cas l h = ground (arith, Exchange.critical-owns 1 l h)
holds_one xchg l h = ground (arith, Exchange.critical-owns 0 l h)
holds_one macro l h = ground (arith, Exchange.critical-owns 0 l h)

-- At most one thread holds the lock.
abbrev One : Lock → ℕ → (ℕ → Local) → Type 0
One k n f = (i j : ℕ) → i < n → j < n → holds k (f i) ≡ true → holds k (f j) ≡ true → i ≡ j

test_one : (a : ℕ) → (a == 1) ≡ true → a ≡ 1
test_one a h = ground arith

Reach-One :
    (kernel : ℕ → ℕ) (k : Lock) (n : ℕ) (s : System)
    → Few k n
    → Reach kernel (code k) n (free k) s
    → One k n s.threads
Reach-One kernel plain n s few r i j p q h g =
    Plain.one_owner kernel n s few r i j p q (test_one _ h) (test_one _ g)
Reach-One kernel fast n s few r i j p q h g =
    Fast.one_owner kernel n s few r i j p q (test_one _ h) (test_one _ g)
Reach-One kernel v2 n s few r i j p q h g =
    VersionTwo.one_owner kernel n s few r i j p q (test_one _ h) (test_one _ g)
Reach-One kernel cas n s few r i j p q h g =
    Exchange.one_owner kernel 0 1 (omega arith) n s r i j p q (test_one _ h) (test_one _ g)
Reach-One kernel xchg n s few r i j p q h g =
    Exchange.one_owner kernel 1 0 (omega arith) n s r i j p q (test_one _ h) (test_one _ g)
Reach-One kernel macro n s few r i j p q h g =
    Exchange.one_owner kernel 1 0 (omega arith) n s r i j p q (test_one _ h) (test_one _ g)

owner-none :
    (k : Lock) (n : ℕ) (f : ℕ → Local)
    → ((j : ℕ) → j < n → holds k (f j) ≡ false)
    → owner k n f ≡ none
owner-none k zero f h = refl
owner-none k (suc n) f h = rw (h n (omega arith)) (owner-none k n f (λ j p. h j (omega arith)))

owner-some :
    (k : Lock) (n : ℕ) (f : ℕ → Local) (i : ℕ)
    → i < n
    → holds k (f i) ≡ true
    → ((j : ℕ) → j < n → holds k (f j) ≡ true → i ≡ j)
    → owner k n f ≡ some i
owner-some k zero f i p h only = absurd (omega arith)
owner-some k (suc n) f i p h only = elim (Bool-cases (holds k (f n))) [
  | inl e ↦ rw e (ap some (sym (only n (omega arith) e)))
  | inr e ↦ elim (ℕ_discrete i n) [
    | yes same ↦ let e' = subst (λ j. holds k (f j) ≡ false) (sym same) e in absurd (cc)
    | no ne ↦ rw e (owner-some k n f i (omega arith) h (λ j q. only j (omega arith)))
  ]
]

owner-same :
    (k : Lock) (n : ℕ) (f g : ℕ → Local)
    → ((j : ℕ) → holds k (g j) ≡ holds k (f j))
    → owner k n g ≡ owner k n f
owner-same k zero f g h = refl
owner-same k (suc n) f g h = rw (h n, owner-same k n f g h) refl

-- A family of threads and the same after a step of thread `i`, in both of which one thread at most
-- holds the lock.
module _ (k : Lock) (n : ℕ) (f : ℕ → Local) (i : ℕ) (l : Local) (lt : i < n) where
  abbrev after : ℕ → Local
  after = update f i l

  after_here : after i ≡ l
  after_here = if_pos (ℕ_discrete i i) refl l (f i)

  after_there : (j : ℕ) → i ≢ j → after j ≡ f j
  after_there j ne = if_neg (ℕ_discrete i j) ne l (f j)

  same-owner : holds k l ≡ holds k (f i) → owner k n after ≡ owner k n f
  same-owner e = owner-same k n f after at
    where
      at : (j : ℕ) → holds k (after j) ≡ holds k (f j)
      at j = elim (ℕ_discrete i j) [
        | yes same ↦
            subst (λ m. holds k (after m) ≡ holds k (f m)) same (ap (holds k) after_here ∙ e)
        | no ne ↦ ap (holds k) (after_there j ne)
      ]

  -- If no thread but `i` can hold it and `i` does not, then the lock is free.
  nobody :
      (g : ℕ → Local)
      → holds k (g i) ≡ false
      → ((j : ℕ) → j < n → i ≢ j → holds k (g j) ≡ true → i ≡ j)
      → owner k n g ≡ none
  nobody g h only = owner-none k n g at
    where
      at : (j : ℕ) → j < n → holds k (g j) ≡ false
      at j p = elim (ℕ_discrete i j) [
        | yes same ↦ subst (λ m. holds k (g m) ≡ false) same h
        | no ne ↦ elim (Bool-cases (holds k (g j))) [
          | inl e ↦ absurd (ne (only j p ne e))
          | inr e ↦ e
        ]
      ]

  step-Handover : One k n f → One k n after → Handover i (owner k n f) (owner k n after)
  step-Handover before then_one = elim (Bool-cases (holds k (f i))) [
    | inl held ↦ elim (Bool-cases (holds k l)) [
      | inl holding ↦ keep (same-owner (holding ∙ sym held))
      | inr freed ↦ give (owner-some k n f i lt held (λ j p h. before i j lt p held h)) (
          nobody after (ap (holds k) after_here ∙ freed)
            (λ j p ne h. before i j lt p held (ap (holds k) (sym (after_there j ne)) ∙ h)))
    ]
    | inr idle ↦ elim (Bool-cases (holds k l)) [
      | inl taken ↦
          let here : holds k (after i) ≡ true = ap (holds k) after_here ∙ taken in
          take
            (nobody f idle
              (λ j p ne h. then_one i j lt p here (ap (holds k) (after_there j ne) ∙ h)))
            (owner-some k n after i lt here (λ j p h. then_one i j lt p here h))
      | inr still ↦ keep (same-owner (still ∙ sym idle))
    ]
  ]

-- Each instruction of a thread leaves the owner of the lock as it is, takes a free lock for that
-- thread or frees the lock that this thread owns; and if the instruction leads into the critical
-- section, or on in it, then the thread is the owner.
pub handover :
    (kernel : ℕ → ℕ) (k : Lock) (n : ℕ) (s : System)
    → Few k n
    → Reach kernel (code k) n (free k) s
    → (i w : ℕ) (l : Local) → i < n
    → step kernel (code k) s.word (s.threads i) ≡ some (w, l)
    → Handover i (owner k n s.threads) (owner k n (update s.threads i l))
      × ((critical k l ≡ false) ⊎ (owner k n (update s.threads i l) ≡ some i))
handover kernel k n s few r i w l lt e =
    let r' = later r (turn i lt e) in
    let one = Reach-One kernel k n _ few r' in
    (
      step-Handover k n s.threads i l lt (Reach-One kernel k n s few r) one,
      elim (Bool-cases (critical k l)) [
        | inl c ↦
            let h : holds k (update s.threads i l i) ≡ true =
              ap (holds k) (after_here k n s.threads i l lt) ∙ holds_one k l c in
            inr (owner-some k n (update s.threads i l) i lt h (λ j p g. one i j lt p h g))
        | inr c ↦ inl c
      ],
    )
