-- ===== src/Base/Bits.antt =====
-- `|` and `&` at variables: their binary digits.
use Prim.Native.Nat.{
  ℕ, zero, suc, ◌+◌, ◌-◌, ◌*◌, ◌/◌, ◌%◌, ◌^◌, ◌≤◌, ◌<◌, min, max, bit_and, bit_or, digits, bitwise,
  bit_and-bitwise, bit_or-bitwise,
}
use mathlib.Core.Path.{◌≡◌, refl, ap, ◌∙◌}
use native.Mathlib.Nat.{pow-suc, one-le-pow}
use native.Mathlib.Omega.{arith}
use htsynch.Base.Tests.{◌==◌, if◌then◌else◌}

module _ (rest : ℕ → ℕ) (op : ℕ → ℕ → ℕ) where
  -- Fuel beyond the first number changes nothing.
  digits-more :
      (x fuel more y : ℕ)
      → x ≤ fuel
      → fuel ≤ more
      → digits rest op more x y ≡ digits rest op fuel x y
  digits-more zero zero zero y enough le = refl
  digits-more zero zero (suc more) y enough le = refl
  digits-more zero (suc fuel) (suc more) y enough le = refl
  digits-more (suc x) (suc fuel) (suc more) y enough le =
      rw (digits-more (suc x / 2) fuel more (y / 2) (omega arith) (omega arith))
  digits-more x (suc fuel) zero y enough le = absurd (omega arith)
  digits-more (suc x) zero more y enough le = absurd (omega arith)

  bitwise_low :
      (x y : ℕ)
      → bitwise rest op (suc x) y ≡ bitwise rest op (suc x / 2) (y / 2) * 2 + op (suc x % 2) (y % 2)
  bitwise_low x y =
      let half = suc x / 2 in
      omega (arith, digits-more half half x (y / 2) (omega arith) (omega arith))

module _ (y : ℕ) where
  pub bit_and_step : (x : ℕ) → bit_and x y ≡ bit_and (x / 2) (y / 2) * 2 + min (x % 2) (y % 2)
  bit_and_step zero = simp bit_and-bitwise (omega arith)
  bit_and_step (suc k) = simp bit_and-bitwise (bitwise_low (λ d. 0) min k y)

  pub bit_or_step : (x : ℕ) → bit_or x y ≡ bit_or (x / 2) (y / 2) * 2 + max (x % 2) (y % 2)
  bit_or_step zero = simp bit_or-bitwise (omega arith)
  bit_or_step (suc k) = simp bit_or-bitwise (bitwise_low (λ d. d) max k y)

-- Digit `j` of `w`.
abbrev pub digit : ℕ → ℕ → ℕ
digit zero w = w % 2
digit (suc j) w = digit j (w / 2)

pub digit-lt : (j w : ℕ) → digit j w < 2
digit-lt zero w = omega arith
digit-lt (suc j) w = digit-lt j (w / 2)

pub digit-bit_or : (j a b : ℕ) → digit j (bit_or a b) ≡ max (digit j a) (digit j b)
digit-bit_or zero a b = omega (arith, bit_or_step b a)
digit-bit_or (suc j) a b =
    let e : bit_or a b / 2 ≡ bit_or (a / 2) (b / 2) = omega (arith, bit_or_step b a) in
    rw e (digit-bit_or j (a / 2) (b / 2))

zero-bit_and : (b : ℕ) → bit_and 0 b ≡ 0
zero-bit_and b = bit_and-bitwise 0 b

zero-bit_or : (b : ℕ) → bit_or 0 b ≡ b
zero-bit_or b = bit_or-bitwise 0 b

mul-pow-suc : (q k : ℕ) → q * 2 ^ suc k ≡ 2 * (q * 2 ^ k)
mul-pow-suc q k = omega (arith, ap (λ (t : ℕ). q * t) (pow-suc 2 k))

-- A one shifted to place `k` picks out digit `k`.
pub bit_and-pow : (k w : ℕ) → bit_and (2 ^ k) w ≡ digit k w * 2 ^ k
bit_and-pow zero w = omega (arith, bit_and_step w 1, zero-bit_and (w / 2))
bit_and-pow (suc k) w =
    let twice : 2 ^ suc k / 2 ≡ 2 ^ k = omega (arith, pow-suc 2 k) in
    let even : 2 ^ suc k % 2 ≡ 0 = omega (arith, pow-suc 2 k) in
    ground (
      arith,
      bit_and_step w (2 ^ suc k),
      twice,
      even,
      bit_and-pow k (w / 2),
      mul-pow-suc (digit k (w / 2)) k,
    )

-- Fields that do not overlap add up.
pub bit_or_high : (k low high : ℕ) → low < 2 ^ k → bit_or low (high * 2 ^ k) ≡ low + high * 2 ^ k
bit_or_high zero low high h =
    let e : low ≡ 0 = omega arith in rw e (omega (arith, zero-bit_or (high * 2 ^ 0)))
bit_or_high (suc k) low high h = ground (
  arith,
  bit_or_step (high * 2 ^ suc k) low,
  mul-pow-suc high k,
  pow-suc 2 k,
  bit_or_high k (low / 2) high (omega (arith, pow-suc 2 k)),
)

digit_zero : (j : ℕ) → digit j 0 ≡ 0
digit_zero zero = refl
digit_zero (suc j) = digit_zero j

-- The digits of a power of two.
pub digit-pow : (j k : ℕ) → digit j (2 ^ k) ≡ (if j == k then 1 else 0)
digit-pow zero zero = refl
digit-pow zero (suc k) = ground (arith, pow-suc 2 k)
digit-pow (suc j) zero = ground (arith, digit_zero j)
digit-pow (suc j) (suc k) =
    let e : 2 ^ suc k / 2 ≡ 2 ^ k = omega (arith, pow-suc 2 k) in
    rw e (ground (arith, digit-pow j k))

-- A mask of ones at the low end leaves a number that fits, and one further up takes off the low
-- digits.
bit_and-ones : (k x : ℕ) → x < 2 ^ k → bit_and (2 ^ k - 1) x ≡ x
bit_and-ones zero x h = let e : x ≡ 0 = omega arith in rw e (zero-bit_and 0)
bit_and-ones (suc k) x h =
    let half : (2 ^ suc k - 1) / 2 ≡ 2 ^ k - 1 = omega (arith, pow-suc 2 k) in
    let odd : (2 ^ suc k - 1) % 2 ≡ 1 = omega (arith, pow-suc 2 k, one-le-pow k 2 (omega arith)) in
    ground (
      arith,
      bit_and_step x (2 ^ suc k - 1),
      half,
      odd,
      bit_and-ones k (x / 2) (omega (arith, pow-suc 2 k)),
    )

bit_and-high :
    (k mask low high : ℕ)
    → low < 2 ^ k
    → bit_and (mask * 2 ^ k) (low + high * 2 ^ k) ≡ bit_and mask high * 2 ^ k
bit_and-high zero mask low high h =
    let e : low ≡ 0 = omega arith in
    let m : mask * 2 ^ 0 ≡ mask = omega arith in
    let n : 0 + high * 2 ^ 0 ≡ high = omega arith in rw (e, m, n) (omega arith)
bit_and-high (suc k) mask low high h = ground (
  arith,
  bit_and_step (low + high * 2 ^ suc k) (mask * 2 ^ suc k),
  mul-pow-suc high k,
  mul-pow-suc mask k,
  mul-pow-suc (bit_and mask high) k,
  pow-suc 2 k,
  bit_and-high k mask (low / 2) high (omega (arith, pow-suc 2 k)),
)

-- Rounding down to a page of 4096 bytes with a mask of 64 bits.
pub bit_and-page : (x : ℕ) → x < 2 ^ 64 → bit_and (2 ^ 64 - 4096) x ≡ x / 4096 * 4096
bit_and-page x h =
    let split : x ≡ x % 4096 + x / 4096 * 2 ^ 12 = omega arith in
    let mask : 2 ^ 64 - 4096 ≡ (2 ^ 52 - 1) * 2 ^ 12 = refl in
    ap (λ (t : ℕ). bit_and (2 ^ 64 - 4096) t) split
    ∙ bit_and-high 12 (2 ^ 52 - 1) (x % 4096) (x / 4096) (omega arith)
    ∙ ap (λ (t : ℕ). t * 2 ^ 12) (bit_and-ones 52 (x / 4096) (omega arith))

-- Rounding down to a line of 64 bytes with a mask of 64 bits.
pub bit_and-line : (x : ℕ) → x < 2 ^ 64 → bit_and (2 ^ 64 - 64) x ≡ x / 64 * 64
bit_and-line x h =
    let split : x ≡ x % 64 + x / 64 * 2 ^ 6 = omega arith in
    let mask : 2 ^ 64 - 64 ≡ (2 ^ 58 - 1) * 2 ^ 6 = refl in
    ap (λ (t : ℕ). bit_and (2 ^ 64 - 64) t) split
    ∙ bit_and-high 6 (2 ^ 58 - 1) (x % 64) (x / 64) (omega arith)
    ∙ ap (λ (t : ℕ). t * 2 ^ 6) (bit_and-ones 58 (x / 64) (omega arith))

-- A mask of ones at the low end takes off the digits above it.
bit_and-low : (k low high : ℕ) → low < 2 ^ k → bit_and (2 ^ k - 1) (low + high * 2 ^ k) ≡ low
bit_and-low zero low high h = omega (arith, zero-bit_and (low + high * 2 ^ 0))
bit_and-low (suc k) low high h =
    let half : (2 ^ suc k - 1) / 2 ≡ 2 ^ k - 1 = omega (arith, pow-suc 2 k) in
    let odd : (2 ^ suc k - 1) % 2 ≡ 1 = omega (arith, pow-suc 2 k, one-le-pow k 2 (omega arith)) in
    ground (
      arith,
      bit_and_step (low + high * 2 ^ suc k) (2 ^ suc k - 1),
      half,
      odd,
      mul-pow-suc high k,
      pow-suc 2 k,
      bit_and-low k (low / 2) high (omega (arith, pow-suc 2 k)),
    )

-- The offset in a page of 4096 bytes.
pub bit_and-page_offset : (x : ℕ) → bit_and 4095 x ≡ x % 4096
bit_and-page_offset x =
    let split : x ≡ x % 4096 + x / 4096 * 2 ^ 12 = omega arith in
    ap (λ (t : ℕ). bit_and 4095 t) split ∙ bit_and-low 12 (x % 4096) (x / 4096) (omega arith)

bit_or-zero : (n x : ℕ) → x ≤ n → bit_or x 0 ≡ x
bit_or-zero zero x h = let e : x ≡ 0 = omega arith in rw e (zero-bit_or 0)
bit_or-zero (suc n) x h = ground (arith, bit_or_step 0 x, bit_or-zero n (x / 2) (omega arith))

pub bit_or_low : (k low high : ℕ) → low < 2 ^ k → bit_or (high * 2 ^ k) low ≡ low + high * 2 ^ k
bit_or_low zero low high h =
    let e : low ≡ 0 = omega arith in
    rw e (omega (arith, bit_or-zero (high * 2 ^ 0) (high * 2 ^ 0) (omega arith)))
bit_or_low (suc k) low high h = ground (
  arith,
  bit_or_step low (high * 2 ^ suc k),
  mul-pow-suc high k,
  pow-suc 2 k,
  bit_or_low k (low / 2) high (omega (arith, pow-suc 2 k)),
)
