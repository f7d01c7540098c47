-- ===== src/Asm.antt =====
-- The x86 instructions of the inline assembly in mwait_barrier/synch.h and
-- kernel_monitor_user_notification_with_mmap/{spin.h,spin.c}, with one memory operand (`%0`, the
-- spin variable). A jump names the index of its target. Each instruction reads or writes the
-- operand at most once, so one instruction is one step of a thread.
use htsynch.Base.{
  ℕ, suc, ◌+◌, ◌^◌, ◌==◌, Bool, false, not, xor, Option, none, some, List, get_elem?, dec32, leb,
  ◌-◌, ◌%◌, ◌||◌, sign32, signed_lt, if◌then◌else◌,
}

pub data Instr : Type 0 where
  lock_decl : Instr  -- lock; decl %0
  xchgl : Instr  -- xchgl %0,%eax
  movl_eax : ℕ → Instr  -- movl $k,%eax (and movq $k,%rax)
  movl : ℕ → Instr  -- movl $k,%0
  cmpl : ℕ → Instr  -- cmpl k,%0
  cmpq : ℕ → Instr  -- cmpq k,%0
  cmpl_eax : ℕ → Instr  -- cmpl $k,%eax
  incq_cnt : Instr  -- incq %2, a counter in memory
  syscall : Instr  -- syscall, the number in %rax
  pause : Instr
  section_body : Instr  -- the code between two asm statements; it leaves the operand alone
  jns jne je jle jge jg jmp : ℕ → Instr

-- The registers of one thread; `less` is SF ≠ OF, the condition of the signed jumps.
pub record Local : Type 0 where
  pub pc : ℕ
  pub eax : ℕ
  pub zf : Bool
  pub sf : Bool
  pub less : Bool
  pub cnt : ℕ

abbrev pub entry : Local
entry = record { pc = 0; eax = 0; zf = false; sf = false; less = false; cnt = 0 }

-- The flags after `a - b` on words with sign bit `half`.
abbrev compare_flags : ℕ → ℕ → ℕ → Local → Local
compare_flags half a b l = record l {
  pc = suc l.pc;
  zf = a == b;
  sf = leb half ((a + (half + half) - b) % (half + half));
  less = signed_lt half a b;
}

abbrev jump_if : Bool → ℕ → Local → Local
jump_if b target l = record l { pc = if b then target else suc l.pc }

abbrev next : Local → Local
next l = record l { pc = suc l.pc }

-- The operand and the registers after one instruction. `kernel` gives what a system call leaves
-- in %rax.
abbrev pub exec : (ℕ → ℕ) → Instr → ℕ → Local → ℕ × Local
exec kernel lock_decl w l = (
  dec32 w,
  record l {
    pc = suc l.pc;
    zf = dec32 w == 0;
    sf = sign32 (dec32 w);
    less = xor (sign32 (dec32 w)) (dec32 w == 2 ^ 31 - 1);
  },
)
exec kernel xchgl w l = (l.eax, record l { pc = suc l.pc; eax = w })
exec kernel (movl_eax k) w l = (w, record l { pc = suc l.pc; eax = k })
exec kernel (movl k) w l = (k, next l)
exec kernel (cmpl k) w l = (w, compare_flags (2 ^ 31) w k l)
exec kernel (cmpq k) w l = (w, compare_flags (2 ^ 63) w k l)
exec kernel (cmpl_eax k) w l = (w, compare_flags (2 ^ 31) l.eax k l)
exec kernel incq_cnt w l = (w, record l { pc = suc l.pc; cnt = (l.cnt + 1) % 2 ^ 64 })
exec kernel syscall w l = (w, record l { pc = suc l.pc; eax = kernel l.eax })
exec kernel pause w l = (w, next l)
exec kernel section_body w l = (w, next l)
exec kernel (jns t) w l = (w, jump_if (not l.sf) t l)
exec kernel (jne t) w l = (w, jump_if (not l.zf) t l)
exec kernel (je t) w l = (w, jump_if l.zf t l)
exec kernel (jle t) w l = (w, jump_if (l.zf || l.less) t l)
exec kernel (jge t) w l = (w, jump_if (not l.less) t l)
exec kernel (jg t) w l = (w, jump_if (not (l.zf || l.less)) t l)
exec kernel (jmp t) w l = (w, record l { pc = t })

-- Fetch and execute; `none` past the end of the code.
unfoldable pub step : (ℕ → ℕ) → List Instr → ℕ → Local → Option (ℕ × Local)
step kernel code w l = elim (get_elem? code l.pc) [
  | none ↦ none
  | some i ↦ some (exec kernel i w l)
]
