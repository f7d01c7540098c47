-- ===== src/Timer/Hz.antt =====
-- `read_hz` of mwait_barrier/btimer_rdtsc32.h, and of btimer_rdtsc64.h, which has the same text. The
-- functions of the C library and of the system are parameters.
use htsynch.Base.{
  ℕ, ◌==◌, ◌||◌, ◌≡◌, refl, if◌then◌else◌, Bool, false, List, [], ◌∷◌, ◌++◌, Option, none, some,
  arith, ap, ◌∙◌,
}
use htsynch.Timer.Doubles.{Doubles}

abbrev pub colon : ℕ
colon = 58

-- `buffer` is what the 4096 bytes hold after the `read`; `strstr_cpu_mhz` gives the rest of a text
-- from the first "cpu MHz" on, and `strtod` the number that a text begins with.
pub record Library (D : Doubles) : Type 0 where
  pub malloc_fails : Bool
  pub open_fails : Bool
  pub buffer : List ℕ
  pub strstr_cpu_mhz : List ℕ → Option (List ℕ)
  pub strtod : List ℕ → D.Double

-- `undefined` is a read past the buffer or through a null pointer.
pub data Outcome (D : Doubles) : Type 0 where
  exited undefined : Outcome D
  read_as : D.Double → Outcome D

-- `while (*ptr++ != ':');`
unfoldable pub skip_colon : List ℕ → Option (List ℕ)
skip_colon [] = none
skip_colon (c ∷ l) = let rest = skip_colon l in if c == colon then some l else rest

module _ (D : Doubles) (L : Library D) where
  abbrev pub number_at : Option (List ℕ) → Outcome D
  number_at none = undefined
  number_at (some number) = read_as (D.mul (L.strtod number) (D.of_word 1000000))

  abbrev pub found_at : Option (List ℕ) → Outcome D
  found_at none = undefined
  found_at (some text) = number_at (skip_colon text)

  abbrev pub read_hz : Outcome D
  read_hz =
      if L.malloc_fails
      then exited
      else if L.open_fails
      then exited
      else found_at (L.strstr_cpu_mhz L.buffer)

abbrev pub has_colon : List ℕ → Bool
has_colon [] = false
has_colon (c ∷ l) = c == colon || has_colon l

skip_colon-append :
    (text number : List ℕ)
    → has_colon text ≡ false
    → skip_colon (text ++ colon ∷ number) ≡ some number
unfolding skip_colon
skip_colon-append [] number h = refl
skip_colon-append (c ∷ l) number h = ground (arith, skip_colon-append l number)

-- Where the memory and the file are there and the text has "cpu MHz", some text without a colon and
-- a colon, the result is a million times the number behind that colon.
pub read_hz_lem :
    (D : Doubles) (L : Library D) (text number : List ℕ)
    → L.malloc_fails ≡ false
    → L.open_fails ≡ false
    → L.strstr_cpu_mhz L.buffer ≡ some (text ++ colon ∷ number)
    → has_colon text ≡ false
    → read_hz D L ≡ read_as (D.mul (L.strtod number) (D.of_word 1000000))
read_hz_lem D L text number m o s h =
    simp (m, o) (ap (found_at D L) s ∙ ap (number_at D L) (skip_colon-append text number h))

-- Where the text has no "cpu MHz", the loop begins at a null pointer.
pub read_hz_undefined :
    (D : Doubles) (L : Library D)
    → L.malloc_fails ≡ false
    → L.open_fails ≡ false
    → L.strstr_cpu_mhz L.buffer ≡ none
    → read_hz D L ≡ undefined
read_hz_undefined D L m o s = simp (m, o) (ap (found_at D L) s)
