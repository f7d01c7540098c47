-- ===== src/SpinLoop/Run.antt =====
-- The thirteen loops under one name each, and their run against a variable that others change.
use htsynch.Base.{
  ℕ, zero, suc, ◌+◌, ◌%◌, ◌^◌, ◌==◌, Bool, not, ◌||◌, List, Option, none, some, get_elem?,
  signed_lt,
}
use htsynch.Asm.{Instr, Local, exec, cmpl, cmpq}
use htsynch.SpinLoop.Code.{
  spin_on_condition, spin_on_condition_ineq, spin_on_condition_cpuhalt,
  spin_on_condition_ineq_cpuhalt, macro_on_condition, macro_on_condition_hlt,
  macro_on_condition_hltcnt, macro_on_condition_ineq, macro_on_condition_ineq_cnt,
  macro_on_condition_ineq_cpuhalt, macro_on_condition_ineq_cpuhalt_cnt, macro_on_condition_ineq_hlt,
  macro_on_condition_ineq_hlt_cnt,
}

pub data Loop : Type 0 where
  wait wait_ineq wait_cpuhalt wait_ineq_cpuhalt macro macro_hlt macro_hltcnt macro_ineq
        macro_ineq_cnt macro_ineq_cpuhalt macro_ineq_cpuhalt_cnt macro_ineq_hlt macro_ineq_hlt_cnt :
      Loop

abbrev pub code : Loop → ℕ → List Instr
code wait = spin_on_condition
code wait_ineq = spin_on_condition_ineq
code wait_cpuhalt = spin_on_condition_cpuhalt
code wait_ineq_cpuhalt = spin_on_condition_ineq_cpuhalt
code macro = macro_on_condition
code macro_hlt = macro_on_condition_hlt
code macro_hltcnt = macro_on_condition_hltcnt
code macro_ineq = macro_on_condition_ineq
code macro_ineq_cnt = macro_on_condition_ineq_cnt
code macro_ineq_cpuhalt = macro_on_condition_ineq_cpuhalt
code macro_ineq_cpuhalt_cnt = macro_on_condition_ineq_cpuhalt_cnt
code macro_ineq_hlt = macro_on_condition_ineq_hlt
code macro_ineq_hlt_cnt = macro_on_condition_ineq_hlt_cnt

-- How many instructions one more round of the loop takes.
abbrev pub round : Loop → ℕ → ℕ
round wait f = suc (suc (suc f))
round wait_ineq f = suc (suc (suc f))
round wait_cpuhalt f = suc (suc (suc (suc (suc f))))
round wait_ineq_cpuhalt f = suc (suc (suc (suc (suc f))))
round macro f = suc (suc (suc f))
round macro_hlt f = suc (suc (suc (suc (suc f))))
round macro_hltcnt f = suc (suc (suc (suc (suc (suc f)))))
round macro_ineq f = suc (suc (suc f))
round macro_ineq_cnt f = suc (suc (suc (suc f)))
round macro_ineq_cpuhalt f = suc (suc (suc (suc (suc f))))
round macro_ineq_cpuhalt_cnt f = suc (suc (suc (suc (suc (suc f)))))
round macro_ineq_hlt f = suc (suc (suc (suc (suc f))))
round macro_ineq_hlt_cnt f = suc (suc (suc (suc (suc (suc f)))))

-- The counter, a quadword, after one more round.
abbrev pub count_round : Loop → ℕ → ℕ
count_round macro_hltcnt cnt = (cnt + 1) % 2 ^ 64
count_round macro_ineq_cnt cnt = (cnt + 1) % 2 ^ 64
count_round macro_ineq_cpuhalt_cnt cnt = (cnt + 1) % 2 ^ 64
count_round macro_ineq_hlt_cnt cnt = (cnt + 1) % 2 ^ 64
count_round _ cnt = cnt

-- What a round leaves in %rax, and the operand's sign bit.
abbrev pub eax_after : (ℕ → ℕ) → Loop → ℕ → ℕ
eax_after kernel wait_cpuhalt eax = kernel 256
eax_after kernel wait_ineq_cpuhalt eax = kernel 256
eax_after kernel macro_hlt eax = kernel 16
eax_after kernel macro_hltcnt eax = kernel 16
eax_after kernel macro_ineq_cpuhalt eax = kernel 256
eax_after kernel macro_ineq_cpuhalt_cnt eax = kernel 256
eax_after kernel macro_ineq_hlt eax = kernel 16
eax_after kernel macro_ineq_hlt_cnt eax = kernel 16
eax_after kernel _ eax = eax

abbrev pub half : Loop → ℕ
half macro_ineq = 2 ^ 63
half macro_ineq_cnt = 2 ^ 63
half macro_ineq_cpuhalt = 2 ^ 63
half macro_ineq_cpuhalt_cnt = 2 ^ 63
half macro_ineq_hlt = 2 ^ 63
half macro_ineq_hlt_cnt = 2 ^ 63
half _ = 2 ^ 31

-- The test on the first read: does the code leave at once?
abbrev pub enters : Loop → ℕ → ℕ → Bool
enters wait value w = w == value
enters wait_ineq value w = not (signed_lt (2 ^ 31) w value)
enters wait_cpuhalt value w = w == value
enters wait_ineq_cpuhalt value w = not (signed_lt (2 ^ 31) w value)
enters macro value w = w == value
enters macro_hlt value w = w == value
enters macro_hltcnt value w = w == value
enters macro_ineq value w = not (signed_lt (2 ^ 63) w value)
enters macro_ineq_cnt value w = not (signed_lt (2 ^ 63) w value)
enters macro_ineq_cpuhalt value w = not (signed_lt (2 ^ 63) w value)
enters macro_ineq_cpuhalt_cnt value w = not (signed_lt (2 ^ 63) w value)
enters macro_ineq_hlt value w = not (signed_lt (2 ^ 63) w value)
enters macro_ineq_hlt_cnt value w = not (signed_lt (2 ^ 63) w value)

-- The test on every later read: does the loop end?
abbrev pub leaves : Loop → ℕ → ℕ → Bool
leaves wait value w = w == value
leaves wait_ineq value w = not (w == value || signed_lt (2 ^ 31) w value)
leaves wait_cpuhalt value w = w == value
leaves wait_ineq_cpuhalt value w = not (w == value || signed_lt (2 ^ 31) w value)
leaves macro value w = w == value
leaves macro_hlt value w = w == value
leaves macro_hltcnt value w = w == value
leaves macro_ineq value w = not (w == value || signed_lt (2 ^ 63) w value)
leaves macro_ineq_cnt value w = not (w == value || signed_lt (2 ^ 63) w value)
leaves macro_ineq_cpuhalt value w = not (w == value || signed_lt (2 ^ 63) w value)
leaves macro_ineq_cpuhalt_cnt value w = not (w == value || signed_lt (2 ^ 63) w value)
leaves macro_ineq_hlt value w = not (w == value || signed_lt (2 ^ 63) w value)
leaves macro_ineq_hlt_cnt value w = not (w == value || signed_lt (2 ^ 63) w value)

abbrev pub after_read : Instr → ℕ → ℕ
after_read (cmpl _) r = suc r
after_read (cmpq _) r = suc r
after_read _ r = r

-- `seen r` is what read number `r` of the variable finds. The result is the number of reads made
-- and the counter's value, or `none` if the fuel, one unit an instruction, ends first.
unfoldable pub run : (ℕ → ℕ) → List Instr → (ℕ → ℕ) → ℕ → ℕ → Local → Option (ℕ × ℕ)
run kernel code seen zero r l = none
run kernel code seen (suc fuel) r l = elim (get_elem? code l.pc) [
  | none ↦ some (r, l.cnt)
  | some i ↦ run kernel code seen fuel (after_read i r) (exec kernel i (seen r) l).1
]
