-- ===== src/Syscall/Long.antt =====
-- mwait_barrier/syscall_macros.h where CPU_BITS is 64. The instruction `syscall` is the parameter
-- `kernel`: what the kernel, given the registers, leaves in %rax.
use htsynch.Base.{ℕ, ◌-◌, ◌%◌, ◌^◌, leb, if◌then◌else◌}

-- The registers that carry the number and the arguments.
pub record Regs : Type 0 where
  pub rax : ℕ
  pub rdi : ℕ
  pub rsi : ℕ
  pub rdx : ℕ
  pub r10 : ℕ
  pub r8 : ℕ
  pub r9 : ℕ

-- What a stub leaves: `errno`, and its value as an `int`, modulo 2 ^ 32.
pub record Result : Type 0 where
  pub errno : ℕ
  pub value : ℕ

-- `__syscall_return (int, res)`, for a word `res`.
unfoldable pub syscall_return : ℕ → ℕ → Result
syscall_return errno res =
    if leb (2 ^ 64 - 127) res
    then record { errno = (2 ^ 64 - res) % 2 ^ 32; value = (2 ^ 64 - 1) % 2 ^ 32 }
    else record { errno = errno; value = res % 2 ^ 32 }

-- `before` is what the registers hold at the call.
module _ (kernel : Regs → ℕ) (before : Regs) (errno number : ℕ) where
  unfoldable pub syscall0 : Result
  syscall0 = syscall_return errno (kernel (record before { rax = number }))

  unfoldable pub syscall1 : ℕ → Result
  syscall1 a = syscall_return errno (kernel (record before { rax = number; rdi = a }))

  unfoldable pub syscall2 : ℕ → ℕ → Result
  syscall2 a b = syscall_return errno (kernel (record before { rax = number; rdi = a; rsi = b }))

  unfoldable pub syscall3 : ℕ → ℕ → ℕ → Result
  syscall3 a b c =
      syscall_return errno (kernel (record before { rax = number; rdi = a; rsi = b; rdx = c }))

  unfoldable pub syscall4 : ℕ → ℕ → ℕ → ℕ → Result
  syscall4 a b c d =
      let loaded = record before { rax = number; rdi = a; rsi = b; rdx = c } in
      syscall_return errno (kernel (record loaded { r10 = d }))

  unfoldable pub syscall5 : ℕ → ℕ → ℕ → ℕ → ℕ → Result
  syscall5 a b c d e =
      let loaded = record before { rax = number; rdi = a; rsi = b; rdx = c } in
      let moved = record loaded { r10 = d } in
      syscall_return errno (kernel (record moved { r8 = e }))

  unfoldable pub syscall6 : ℕ → ℕ → ℕ → ℕ → ℕ → ℕ → Result
  syscall6 a b c d e f =
      let loaded = record before { rax = number; rdi = a; rsi = b; rdx = c } in
      let moved = record loaded { r10 = d } in
      let moved_more = record moved { r8 = e } in
      syscall_return errno (kernel (record moved_more { r9 = f }))

  -- What the fast stubs leave in `__dummy_res`; they return nothing.
  unfoldable pub fast_syscall0 : ℕ
  fast_syscall0 = kernel (record before { rax = number })

  unfoldable pub fast_syscall1 : ℕ → ℕ
  fast_syscall1 a = kernel (record before { rax = number; rdi = a })
