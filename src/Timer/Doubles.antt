-- ===== src/Timer/Doubles.antt =====
-- The C type `double`, as the reports of the timers use it.
use htsynch.Base.{ℕ, ◌+◌, ◌*◌, ◌^◌, ◌<◌, ◌≡◌}

-- The processor's operations; `of_word` is the conversion of an unsigned integer.
pub record Doubles : Type 1 where
  pub Double : Type 0
  pub of_word : ℕ → Double
  pub add : Double → Double → Double
  pub mul : Double → Double → Double
  pub div : Double → Double → Double

-- IEEE 754: sums and products of whole numbers are exact as long as they are below 2 ^ 53.
pub record IsExact (D : Doubles) : Type 0 where
  pub add_exact : (a b : ℕ) → a + b < 2 ^ 53 → D.add (D.of_word a) (D.of_word b) ≡ D.of_word (a + b)
  pub mul_exact : (a b : ℕ) → a * b < 2 ^ 53 → D.mul (D.of_word a) (D.of_word b) ≡ D.of_word (a * b)
