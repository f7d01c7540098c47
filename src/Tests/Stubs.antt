-- ===== src/Tests/Stubs.antt =====
-- System calls of a small kernel.
use htsynch.Base.{ℕ, ℕ_discrete, ◌+◌, ◌≡◌, ◌≤◌, ◌↔◌, refl, some, List, [], ◌∷◌, arith}
use htsynch.Syscall.Long
use htsynch.Syscall.Int80
use htsynch.Syscall.Numbers.{
  Syscall, entry_of, table_two_packages, entry_of-reached, number_2_6_13_1,
}
use htsynch.Syscall.Laws.{
  Outcome, kernel64, kernel32, call64, call32, call64-kernel64, call32-kernel32, call64-failed,
}

-- Call 256 takes two arguments and adds them; call 203, with three, fails; there is no other.
abbrev arity : ℕ → ℕ
arity n = elim (ℕ_discrete n 256) [ yes _ ↦ 2 | no _ ↦ 3 ]

abbrev add : List ℕ → Outcome
add (a ∷ b ∷ []) = Outcome.done (a + b)
add _ = Outcome.failed 3

abbrev serve : ℕ → List ℕ → Outcome
serve n l = add l

abbrev garbage : Long.Regs
garbage = record { rax = 1; rdi = 2; rsi = 3; rdx = 4; r10 = 5; r8 = 6; r9 = 7 }

call64-kernel64_example :
    call64 (kernel64 arity serve) garbage 11 256 (20 ∷ 22 ∷ []) ≡ record { errno = 11; value = 42 }
unfolding ℕ_discrete
call64-kernel64_example =
    call64-kernel64 arity serve garbage 11 256 (20 ∷ 22 ∷ []) refl (omega arith) (omega arith)

abbrev caller : Int80.Cpu
caller = record {
  regs = record { eax = 1; ebx = 2; ecx = 3; edx = 4; esi = 5; edi = 6; ebp = 7 };
  stack = 9 ∷ [];
}

call32-kernel32_example :
    let out = call32 (kernel32 arity serve) caller 203 4096 (20 ∷ 22 ∷ 24 ∷ []) in
    (out.0 ≡ 4294967295) × (out.1.regs.ebx ≡ 2) × (out.1.regs.ebp ≡ 7) × (out.1.stack ≡ 9 ∷ [])
unfolding ℕ_discrete
call32-kernel32_example =
    call32-kernel32 arity serve caller 203 4096 (20 ∷ 22 ∷ 24 ∷ []) refl (omega arith)
      (omega arith, omega arith)

-- A kernel whose every call takes no argument and fails with 133.
call64-failed_example :
    (call64 (kernel64 (λ n. 0) (λ n l. Outcome.failed 133)) garbage 11 39 []
      ≡ record { errno = 11; value = 4294967163 })
    × (((call64 (kernel64 (λ n. 0) (λ n l. Outcome.failed 133)) garbage 11 39 []).value
          ≡ 4294967295)
        ↔ (133 ≤ 127))
call64-failed_example =
    call64-failed (λ n. 0) (λ n l. Outcome.failed 133) garbage 11 39 133 [] refl (omega arith) refl
      (omega arith) (omega arith)

entry_of-reached_example : entry_of 263 table_two_packages ≡ some Syscall.mmap_sleep2
unfolding number_2_6_13_1
entry_of-reached_example = entry_of-reached Syscall.mmap_spin_while_greater 263 refl
