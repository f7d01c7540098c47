-- ===== src/SpinLoop/Code.antt =====
-- The waiting loops of mwait_barrier/synch.h (`spin_on_condition` and its kin) and the macros
-- SPIN_ON_CONDITION... of kernel_monitor_user_notification_with_mmap/spin.h (here macro_...),
-- transcribed instruction by instruction. The argument is the value waited for; a label is the
-- index of its instruction, and the last label the index past the end.
use htsynch.Base.{ℕ, List, [], ◌∷◌}
use htsynch.Asm.{Instr, cmpl, cmpq, je, jne, jge, jle, pause, movl_eax, syscall, incq_cnt}

abbrev pub spin_on_condition : ℕ → List Instr
spin_on_condition value = cmpl value ∷ je 5 ∷ pause ∷ cmpl value ∷ jne 2 ∷ []

abbrev pub spin_on_condition_ineq : ℕ → List Instr
spin_on_condition_ineq value = cmpl value ∷ jge 5 ∷ pause ∷ cmpl value ∷ jle 2 ∷ []

abbrev pub spin_on_condition_cpuhalt : ℕ → List Instr
spin_on_condition_cpuhalt value =
    cmpl value ∷ je 7 ∷ pause ∷ movl_eax 256 ∷ syscall ∷ cmpl value ∷ jne 2 ∷ []

abbrev pub spin_on_condition_ineq_cpuhalt : ℕ → List Instr
spin_on_condition_ineq_cpuhalt value =
    cmpl value ∷ jge 7 ∷ pause ∷ movl_eax 256 ∷ syscall ∷ cmpl value ∷ jle 2 ∷ []

abbrev pub macro_on_condition : ℕ → List Instr
macro_on_condition value = cmpl value ∷ je 5 ∷ pause ∷ cmpl value ∷ jne 2 ∷ []

abbrev pub macro_on_condition_hlt : ℕ → List Instr
macro_on_condition_hlt value =
    cmpl value ∷ je 7 ∷ pause ∷ movl_eax 16 ∷ syscall ∷ cmpl value ∷ jne 2 ∷ []

abbrev pub macro_on_condition_hltcnt : ℕ → List Instr
macro_on_condition_hltcnt value =
    cmpl value ∷ je 8 ∷ pause ∷ movl_eax 16 ∷ syscall ∷ incq_cnt ∷ cmpl value ∷ jne 2 ∷ []

abbrev pub macro_on_condition_ineq : ℕ → List Instr
macro_on_condition_ineq value = cmpq value ∷ jge 5 ∷ pause ∷ cmpq value ∷ jle 2 ∷ []

abbrev pub macro_on_condition_ineq_cnt : ℕ → List Instr
macro_on_condition_ineq_cnt value = cmpq value ∷ jge 6 ∷ pause ∷ incq_cnt ∷ cmpq value ∷ jle 2 ∷ []

abbrev pub macro_on_condition_ineq_cpuhalt : ℕ → List Instr
macro_on_condition_ineq_cpuhalt value =
    cmpq value ∷ jge 7 ∷ pause ∷ movl_eax 256 ∷ syscall ∷ cmpq value ∷ jle 2 ∷ []

abbrev pub macro_on_condition_ineq_cpuhalt_cnt : ℕ → List Instr
macro_on_condition_ineq_cpuhalt_cnt value =
    cmpq value ∷ jge 8 ∷ pause ∷ movl_eax 256 ∷ syscall ∷ incq_cnt ∷ cmpq value ∷ jle 2 ∷ []

abbrev pub macro_on_condition_ineq_hlt : ℕ → List Instr
macro_on_condition_ineq_hlt value =
    cmpq value ∷ jge 7 ∷ pause ∷ movl_eax 16 ∷ syscall ∷ cmpq value ∷ jle 2 ∷ []

abbrev pub macro_on_condition_ineq_hlt_cnt : ℕ → List Instr
macro_on_condition_ineq_hlt_cnt value =
    cmpq value ∷ jge 8 ∷ pause ∷ movl_eax 16 ∷ syscall ∷ incq_cnt ∷ cmpq value ∷ jle 2 ∷ []
