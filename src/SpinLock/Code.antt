-- ===== src/SpinLock/Code.antt =====
-- The locks of mwait_barrier/synch.h (`spin_lock`, `spin_lock_fast`, `spin_lock_cas`) and of
-- kernel_monitor_user_notification_with_mmap/spin.c (`spin_lock`, here `spin_lock_xchg`, and
-- `spin_lock_v2`) with its spin.h (`SPIN_LOCK`), transcribed instruction by instruction. Labels are indices: a lock's entry is
-- at 0 and its last label is the index of the code that follows it.
use htsynch.Base.{ℕ, List, [], ◌∷◌, ◌++◌}
use htsynch.Asm.{
  Instr, lock_decl, xchgl, movl_eax, movl, cmpl, cmpl_eax, pause, section_body, jns, jne, jle, jg,
  jmp,
}

abbrev pub spin_lock_unlocked : ℕ
spin_lock_unlocked = 1

abbrev pub spin_lock_locked : ℕ
spin_lock_locked = 0

-- What `spin_lock_init` stores.
abbrev pub spin_lock_init : ℕ
spin_lock_init = spin_lock_unlocked

abbrev pub spin_lock : List Instr
spin_lock = lock_decl ∷ jns 6 ∷ pause ∷ cmpl 0 ∷ jle 2 ∷ jmp 0 ∷ []

abbrev pub spin_unlock : List Instr
spin_unlock = movl 1 ∷ []

-- The subsection of `spin_lock_fast` stands apart from the code that follows the lock, at `slow`.
abbrev pub spin_lock_fast : ℕ → List Instr
spin_lock_fast slow = lock_decl ∷ jne slow ∷ []

abbrev pub spin_lock_fast_slow : ℕ → List Instr
spin_lock_fast_slow slow = pause ∷ cmpl 0 ∷ jg 0 ∷ jmp slow ∷ []

abbrev pub spin_lock_cas : List Instr
spin_lock_cas =
    movl_eax 0 ∷ xchgl ∷ cmpl_eax 1 ∷ jne 5 ∷ jmp 9 ∷ pause ∷ cmpl 1 ∷ jne 5 ∷ jmp 0 ∷ []

abbrev pub spin_lock_xchg : List Instr
spin_lock_xchg =
    movl_eax 1 ∷ xchgl ∷ cmpl_eax 0 ∷ jne 5 ∷ jmp 9 ∷ pause ∷ cmpl 0 ∷ jne 5 ∷ jmp 0 ∷ []

abbrev pub spin_unlock_xchg : List Instr
spin_unlock_xchg = movl 0 ∷ []

abbrev pub spin_lock_v2 : List Instr
spin_lock_v2 = lock_decl ∷ jns 6 ∷ cmpl 0 ∷ pause ∷ jle 2 ∷ jmp 0 ∷ []

abbrev pub spin_unlock_v2 : List Instr
spin_unlock_v2 = movl 1 ∷ []

-- `SPIN_LOCK` and `SPIN_UNLOCK` of spin.h
abbrev pub macro_lock : List Instr
macro_lock = movl_eax 1 ∷ xchgl ∷ cmpl_eax 0 ∷ jne 5 ∷ jmp 9 ∷ pause ∷ cmpl 0 ∷ jne 5 ∷ jmp 0 ∷ []

abbrev pub macro_unlock : List Instr
macro_unlock = movl 0 ∷ []

-- A thread that takes the lock, runs its section and gives the lock back, again and again.
abbrev pub client : List Instr → List Instr → List Instr
client lock unlock = lock ++ section_body ∷ unlock ++ jmp 0 ∷ []

abbrev pub client_fast : List Instr
client_fast = client (spin_lock_fast 5) spin_unlock ++ spin_lock_fast_slow 5
