-- ===== src/Tests/Timers.antt =====
-- Timers that have been used before, and two intervals; what `read_hz` reads.
use htsynch.Base.{
  ℕ, ◌+◌, ◌*◌, ◌/◌, ◌%◌, ◌^◌, ◌≡◌, refl, arith, List, [], ◌∷◌, false, Option, some, none,
}
use htsynch.Timer.Hz.{colon, Library, undefined, read_as, read_hz, read_hz_lem, read_hz_undefined}
use htsynch.Timer.Wide
use htsynch.Timer.Narrow
use htsynch.Timer.Laws.{wide_run, narrow_run, narrow-wide, value}
use htsynch.Timer.Doubles.{Doubles}
use htsynch.Timer.Reports.{wide_total, narrow_total, wide_ave, narrow_ave, reports_agree}

-- The second interval crosses a multiple of 2 ^ 32.
abbrev intervals : List (ℕ × ℕ)
intervals = (100, 250) ∷ (4294967290, 4294967300) ∷ []

abbrev used : Wide.Timer
used = record { start = 5; stop = 9; total = 4; loops = 1 }

abbrev used_pairs : Narrow.Timer
used_pairs =
    let p : Narrow.Pair = record { low = 7; high = 1 } in
    record { start = p; stop = p; total = p; loops = 3 }

narrow-wide_example :
    let n = narrow_run intervals (Narrow.timer_clear used_pairs) in
    let w = wide_run intervals (Wide.timer_clear used) in
    (value n.total ≡ w.total) × (n.loops ≡ w.loops % 2 ^ 32)
narrow-wide_example = narrow-wide intervals used_pairs used

-- Whole numbers in place of doubles.
abbrev whole : Doubles
whole = record { Double = ℕ; of_word = λ a. a; add = ◌+◌; mul = ◌*◌; div = ◌/◌ }

whole_reports :
    let n = narrow_run intervals (Narrow.timer_clear used_pairs) in
    let w = wide_run intervals (Wide.timer_clear used) in
    (narrow_total whole n ≡ wide_total whole w) × (narrow_ave whole n ≡ wide_ave whole w)
unfolding Wide.timer_clear Wide.timer_start Wide.timer_stop Wide.rdtsc
whole_reports =
    reports_agree whole (record { add_exact = λ a b h. refl; mul_exact = λ a b h. refl }) intervals
      used_pairs used (omega arith) (omega arith)

-- "cpu MHz : " and a number, and a file without it; the number is taken to be 2400.
abbrev library : Option (List ℕ) → Library whole
library rest = record {
  malloc_fails = false;
  open_fails = false;
  buffer = [];
  strstr_cpu_mhz = λ l. rest;
  strtod = λ l. 2400;
}

finds_number : read_hz whole (library (some (99 ∷ 32 ∷ colon ∷ 50 ∷ []))) ≡ read_as 2400000000
finds_number =
    read_hz_lem whole (library (some (99 ∷ 32 ∷ colon ∷ 50 ∷ []))) (99 ∷ 32 ∷ []) (50 ∷ []) refl
      refl refl refl

finds_nothing : read_hz whole (library none) ≡ undefined
finds_nothing = read_hz_undefined whole (library none) refl refl refl
