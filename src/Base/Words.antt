-- ===== src/Base/Words.antt =====
-- Machine words: a w-bit integer is its bit pattern, a number below 2 ^ w.
use Prim.Native.Nat.{ℕ, ◌+◌, ◌-◌, ◌%◌, ◌^◌}
use mathlib.Core.Bool.{Bool}
use htsynch.Base.Tests.{ltb, leb}

abbrev pub word_mod : ℕ
word_mod = 2 ^ 32

-- `incl` and `decl`
abbrev pub inc32 : ℕ → ℕ
inc32 a = (a + 1) % 2 ^ 32

abbrev pub dec32 : ℕ → ℕ
dec32 a = (a + (2 ^ 32 - 1)) % 2 ^ 32

abbrev pub sub32 : ℕ → ℕ → ℕ
sub32 a b = (a + 2 ^ 32 - b) % 2 ^ 32

-- The sign bit of a 32-bit word.
abbrev pub sign32 : ℕ → Bool
sign32 a = leb (2 ^ 31) a

-- The signed order of two `w`-bit words; `half` is 2 ^ (w - 1).
abbrev pub signed_lt : ℕ → ℕ → ℕ → Bool
signed_lt half a b = ltb ((a + half) % (half + half)) ((b + half) % (half + half))
