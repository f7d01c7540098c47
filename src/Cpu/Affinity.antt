-- ===== src/Cpu/Affinity.antt =====
-- The sets of processors of mwait_barrier/cpu.c, a bit each in an `unsigned long`, and the calls
-- that set and get the processors of a thread. Numbers of processors are not negative.
use Prim.Native.Nat.{bit_and, bit_or}
use htsynch.Base.{
  ℕ, zero, suc, ◌-◌, ◌%◌, ◌^◌, ◌<◌, ◌≤◌, ◌≡◌, refl, ltb, ◌==◌, if◌then◌else◌, Option, none, some,
  List, [], ◌∷◌, arith, ◌*◌, ◌+◌, ◌∙◌, ◌⊎◌, inl, inr, dec_lt, ap,
}
use htsynch.Base.Bits.{digit, digit-lt, digit-bit_or, digit-pow, bit_and-pow}
use native.Mathlib.Nat.{pow-le-pow_right, pow-suc}
use htsynch.Syscall.Long
use htsynch.Syscall.Laws.{Outcome, kernel64, IsOrdinary, call64-kernel64, reported}

abbrev pub my_cpu_zero : ℕ
my_cpu_zero = 0

-- `1<<cpu_no` is an `int`; `none` where C does not define it.
unfoldable pub my_cpu_set : ℕ → ℕ → Option ℕ
my_cpu_set cpu cpuset = if ltb cpu 31 then some (bit_or cpuset (2 ^ cpu)) else none

-- The shift is that of an `unsigned long`, of which the value keeps the low 32 bits, an `int`.
unfoldable pub my_cpu_isset : ℕ → ℕ → Option ℕ
my_cpu_isset cpu cpuset = if ltb cpu 64 then some (bit_and (2 ^ cpu) cpuset % 2 ^ 32) else none

-- The call returns, or the process exits.
pub data Affinity : Type 0 where
  returned : ℕ → Affinity
  exited : Affinity

-- A stub returns -1 on an error.
abbrev or_exit : Long.Result → Affinity
or_exit r = if r.value == 2 ^ 32 - 1 then exited else returned r.value

-- `number` is that of the call, `cpuset` an address.
module _ (kernel : Long.Regs → ℕ) (before : Long.Regs) (errno number : ℕ) where
  unfoldable pub my_sched_setaffinity : ℕ → ℕ → ℕ → Affinity
  my_sched_setaffinity pid size cpuset =
      or_exit (Long.syscall3 kernel before errno number pid (size % 2 ^ 32) cpuset)

  unfoldable pub my_sched_getaffinity : ℕ → ℕ → ℕ → Affinity
  my_sched_getaffinity pid size cpuset =
      or_exit (Long.syscall3 kernel before errno number pid (size % 2 ^ 32) cpuset)

bit_and-split :
    (cpu cpuset : ℕ) → (bit_and (2 ^ cpu) cpuset ≡ 0) ⊎ (bit_and (2 ^ cpu) cpuset ≡ 2 ^ cpu)
bit_and-split cpu cpuset = elim (dec_lt 0 (digit cpu cpuset)) [
  | yes one ↦
      let d : digit cpu cpuset ≡ 1 = omega (arith, digit-lt cpu cpuset) in
      inr (bit_and-pow cpu cpuset ∙ rw d (omega arith))
  | no none_of ↦
      let d : digit cpu cpuset ≡ 0 = omega arith in
      inl (bit_and-pow cpu cpuset ∙ rw d (omega arith))
]

digit-set :
    (cpu other cpuset : ℕ)
    → digit other (bit_or cpuset (2 ^ cpu)) ≡ (if other == cpu then 1 else digit other cpuset)
digit-set cpu other cpuset =
    ground (arith, digit-bit_or other cpuset (2 ^ cpu), digit-pow other cpu, digit-lt other cpuset)

-- After a processor below 31 is put into a set, it is in it, and every other one below 32 is in it
-- just if it was before.
pub my_cpu_isset-my_cpu_set :
    (cpu other cpuset cpuset' : ℕ)
    → my_cpu_set cpu cpuset ≡ some cpuset'
    → other < 32
    → my_cpu_isset other cpuset'
      ≡ (if other == cpu then some (2 ^ cpu) else my_cpu_isset other cpuset)
unfolding my_cpu_set my_cpu_isset
my_cpu_isset-my_cpu_set cpu other cpuset cpuset' e h = ground (
  arith,
  bit_and-pow other cpuset,
  bit_and-pow other cpuset',
  digit-set cpu other cpuset,
  pow-le-pow_right two_pos (small h),
)
  where
    two_pos : 0 < 2
    two_pos = omega arith

    small : other < 32 → other ≤ 31
    small p = omega arith

pow-high : (k : ℕ) → 2 ^ (k + 32) ≡ 2 ^ k * 2 ^ 32
pow-high zero = refl
pow-high (suc k) =
    let e : suc k + 32 ≡ suc (k + 32) = omega arith in
    rw e (omega (arith, pow-suc 2 (k + 32), pow-suc 2 k, pow-high k))

-- No processor from 32 on is ever found in a set, though a set has room for 64.
pub my_cpu_isset_high : (cpu cpuset : ℕ) → 32 ≤ cpu → cpu < 64 → my_cpu_isset cpu cpuset ≡ some 0
unfolding my_cpu_isset
my_cpu_isset_high cpu cpuset low high = ground (arith, bit_and-split cpu cpuset, shift)
  where
    shift : 2 ^ cpu % 2 ^ 32 ≡ 0
    shift = let e : cpu ≡ (cpu - 32) + 32 = omega arith in rw e (omega (arith, pow-high (cpu - 32)))

-- What `my_sched_setaffinity` and `my_sched_getaffinity` do: a value of 31 bits from the kernel is
-- returned, and an error number up to 127 ends the process.
abbrev pub ended : Outcome → Affinity
ended (Outcome.done v) = returned v
ended (Outcome.failed e) = exited

ended-IsOrdinary :
    (errno : ℕ) (o : Outcome) → IsOrdinary 127 o → or_exit (reported errno o) ≡ ended o
ended-IsOrdinary errno (Outcome.done v) h = ground arith
ended-IsOrdinary errno (Outcome.failed e) h = refl

-- If the kernel serves the call with three arguments, both wrappers pass it the thread, the size
-- and the address of the set, return its value of 31 bits, and end the process on an error number
-- up to 127.
pub my_sched_affinity_lem :
    (arity : ℕ → ℕ) (serve : ℕ → List ℕ → Outcome) (before : Long.Regs)
    (errno number pid size cpuset : ℕ)
    → arity number ≡ 3
    → size < 2 ^ 32
    → IsOrdinary 127 (serve number (pid ∷ size ∷ cpuset ∷ []))
    → let o = serve number (pid ∷ size ∷ cpuset ∷ []) in
      (my_sched_setaffinity (kernel64 arity serve) before errno number pid size cpuset ≡ ended o)
      × (my_sched_getaffinity (kernel64 arity serve) before errno number pid size cpuset ≡ ended o)
unfolding my_sched_setaffinity my_sched_getaffinity
my_sched_affinity_lem arity serve before errno number pid size cpuset three small h =
    let fits : size % 2 ^ 32 ≡ size = omega arith in
    let call =
      call64-kernel64 arity serve before errno number (pid ∷ size ∷ cpuset ∷ []) three (omega arith)
        h in
    let both =
      ap or_exit (
        ap (λ (n : ℕ). Long.syscall3 (kernel64 arity serve) before errno number pid n cpuset) fits
        ∙ call)
      ∙ ended-IsOrdinary errno _ h in
    (both, both)
