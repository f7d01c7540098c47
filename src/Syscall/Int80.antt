-- ===== src/Syscall/Int80.antt =====
-- mwait_barrier/syscall_macros.h where CPU_BITS is 32. The instruction `int $0x80` is the parameter
-- `kernel`: what the kernel, given the registers, leaves in %eax.
use htsynch.Base.{ℕ, ◌-◌, ◌^◌, leb, if◌then◌else◌, List, [], ◌∷◌}

pub record Regs : Type 0 where
  pub eax : ℕ
  pub ebx : ℕ
  pub ecx : ℕ
  pub edx : ℕ
  pub esi : ℕ
  pub edi : ℕ
  pub ebp : ℕ

-- The registers and the stack, top first.
pub record Cpu : Type 0 where
  pub regs : Regs
  pub stack : List ℕ

abbrev push : ℕ → Cpu → Cpu
push w c = record c { stack = w ∷ c.stack }

abbrev pop_ebx : Cpu → Cpu
pop_ebx c = elim c.stack [ [] ↦ c | w ∷ l ↦ record { regs = record c.regs { ebx = w }; stack = l } ]

abbrev pop_ebp : Cpu → Cpu
pop_ebp c = elim c.stack [ [] ↦ c | w ∷ l ↦ record { regs = record c.regs { ebp = w }; stack = l } ]

abbrev set_ebx : ℕ → Cpu → Cpu
set_ebx w c = record c { regs = record c.regs { ebx = w } }

abbrev set_ebp : ℕ → Cpu → Cpu
set_ebp w c = record c { regs = record c.regs { ebp = w } }

abbrev set_eax : ℕ → Cpu → Cpu
set_eax w c = record c { regs = record c.regs { eax = w } }

-- `__syscall_return (int, res)`: `errno` is left alone.
unfoldable pub syscall_return : ℕ → ℕ
syscall_return res = if leb (2 ^ 32 - 129) res then 2 ^ 32 - 1 else res

-- A stub gives its value, and the registers and the stack after it.
abbrev finish : Cpu → ℕ × Cpu
finish c = (syscall_return c.regs.eax, c)

module _ (kernel : Regs → ℕ) (c : Cpu) (number : ℕ) where
  abbrev int80 : Cpu → Cpu
  int80 d = set_eax (kernel d.regs) d

  -- push %ebx ; movl %2,%ebx ; int $0x80 ; pop %ebx
  abbrev with_ebx : ℕ → Cpu → Cpu
  with_ebx a d = pop_ebx (int80 (set_ebx a (push d.regs.ebx d)))

  unfoldable pub syscall0 : ℕ × Cpu
  syscall0 = finish (int80 (set_eax number c))

  unfoldable pub syscall1 : ℕ → ℕ × Cpu
  syscall1 a1 = finish (with_ebx a1 (set_eax number c))

  unfoldable pub syscall2 : ℕ → ℕ → ℕ × Cpu
  syscall2 a1 a2 =
      finish (with_ebx a1 (record c { regs = record c.regs { eax = number; ecx = a2 } }))

  unfoldable pub syscall3 : ℕ → ℕ → ℕ → ℕ × Cpu
  syscall3 a1 a2 a3 =
      finish (with_ebx a1 (record c { regs = record c.regs { eax = number; ecx = a2; edx = a3 } }))

  unfoldable pub syscall4 : ℕ → ℕ → ℕ → ℕ → ℕ × Cpu
  syscall4 a1 a2 a3 a4 = finish (
      with_ebx a1
        (record c { regs = record c.regs { eax = number; ecx = a2; edx = a3; esi = a4 } }))

  -- Here the number is moved to %eax after %ebx is set.
  unfoldable pub syscall5 : ℕ → ℕ → ℕ → ℕ → ℕ → ℕ × Cpu
  syscall5 a1 a2 a3 a4 a5 =
      let d = record c { regs = record c.regs { ecx = a2; edx = a3; esi = a4; edi = a5 } } in
      finish (pop_ebx (int80 (set_eax number (set_ebx a1 (push d.regs.ebx d)))))

  -- %eax holds the address `args` of a pair of the first and the last argument, until they are
  -- loaded from there.
  unfoldable pub syscall6 : ℕ → ℕ → ℕ → ℕ → ℕ → ℕ → ℕ → ℕ × Cpu
  syscall6 args a1 a2 a3 a4 a5 a6 =
      let d = record c {
        regs = record c.regs { eax = args; ecx = a2; edx = a3; esi = a4; edi = a5 };
      } in
      let saved = push d.regs.ebx (push d.regs.ebp d) in
      let loaded = set_ebx a1 (set_ebp a6 saved) in
      finish (pop_ebp (pop_ebx (int80 (set_eax number loaded))))

  -- The fast stubs leave the result in `__dummy_res` and return nothing.
  unfoldable pub fast_syscall0 : Cpu
  fast_syscall0 = int80 (set_eax number c)

  unfoldable pub fast_syscall1 : ℕ → Cpu
  fast_syscall1 a1 = with_ebx a1 (set_eax number c)
