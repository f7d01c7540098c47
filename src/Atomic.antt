-- ===== src/Atomic.antt =====
-- The atomic operations of mwait_barrier/synch.h on an `unsigned int`.
use htsynch.Base.{
  ℕ, zero, suc, ◌+◌, ◌^◌, ◌<◌, ◌≡◌, refl, ap, ◌∙◌, arith, ◌==◌, inc32, dec32, if◌then◌else◌, List,
  [], ◌∷◌, ◌++◌,
}

abbrev pub atomic_inc : ℕ → ℕ
atomic_inc v = inc32 v

-- The word and the result: `sete` stores whether the decremented word is 0.
abbrev pub atomic_dec_and_test : ℕ → ℕ × ℕ
atomic_dec_and_test v =
    let c = (if dec32 v == 0 then 1 else 0) in (dec32 v, if c == 0 then 0 else 1)

-- The results of `n` calls one after the other, from a word.
abbrev pub results : ℕ → ℕ → List ℕ
results zero v = []
results (suc n) v = let r = atomic_dec_and_test v in r.1 ∷ results n r.0

abbrev zeros : ℕ → List ℕ
zeros zero = []
zeros (suc n) = 0 ∷ zeros n

more : (n : ℕ) → n + 2 < 2 ^ 32 → atomic_dec_and_test (suc (suc n)) ≡ (suc n, 0)
more n h = ground arith

-- Of `n + 1` calls on a count of `n + 1` the last one returns 1, and no other.
pub results_lem : (n : ℕ) → n + 1 < 2 ^ 32 → results (suc n) (suc n) ≡ zeros n ++ 1 ∷ []
results_lem zero h = refl
results_lem (suc n) h =
    ap (λ (r : ℕ × ℕ). r.1 ∷ results (suc n) r.0) (more n (omega arith))
    ∙ ap (λ (l : List ℕ). 0 ∷ l) (results_lem n (omega arith))
