-- ===== src/Syscall/Laws.antt =====
-- The stubs pass the number and the arguments where the kernel looks for them, and report its
-- outcome.
use htsynch.Base.{
  ℕ, ◌-◌, ◌^◌, ◌≤◌, ◌<◌, ◌≡◌, refl, ap, ◌∙◌, ◌↔◌, leb, if◌then◌else◌, List, [], ◌∷◌, length, take,
  arith,
}
use htsynch.Syscall.Long
use htsynch.Syscall.Int80

-- What a system call comes to: a value, or an error number.
pub data Outcome : Type 0 where
  done failed : ℕ → Outcome

-- The word that the kernel returns, of `size` values.
abbrev pub encode : ℕ → Outcome → ℕ
encode size (Outcome.done v) = v
encode size (Outcome.failed e) = size - e

-- A kernel that serves calls by the number and the arguments, with as many arguments as the number
-- has.
module _ (arity : ℕ → ℕ) (serve : ℕ → List ℕ → Outcome) where
  abbrev pub kernel64 : Long.Regs → ℕ
  kernel64 r =
      encode (2 ^ 64)
        (serve r.rax (take (arity r.rax) (r.rdi ∷ r.rsi ∷ r.rdx ∷ r.r10 ∷ r.r8 ∷ r.r9 ∷ [])))

  abbrev pub kernel32 : Int80.Regs → ℕ
  kernel32 r =
      encode (2 ^ 32)
        (serve r.eax (take (arity r.eax) (r.ebx ∷ r.ecx ∷ r.edx ∷ r.esi ∷ r.edi ∷ r.ebp ∷ [])))

-- The stub for so many arguments.
abbrev pub call64 : (Long.Regs → ℕ) → Long.Regs → ℕ → ℕ → List ℕ → Long.Result
call64 k r errno number [] = Long.syscall0 k r errno number
call64 k r errno number (a ∷ []) = Long.syscall1 k r errno number a
call64 k r errno number (a ∷ b ∷ []) = Long.syscall2 k r errno number a b
call64 k r errno number (a ∷ b ∷ c ∷ []) = Long.syscall3 k r errno number a b c
call64 k r errno number (a ∷ b ∷ c ∷ d ∷ []) = Long.syscall4 k r errno number a b c d
call64 k r errno number (a ∷ b ∷ c ∷ d ∷ e ∷ []) = Long.syscall5 k r errno number a b c d e
call64 k r errno number (a ∷ b ∷ c ∷ d ∷ e ∷ f ∷ _) = Long.syscall6 k r errno number a b c d e f

abbrev pub call32 : (Int80.Regs → ℕ) → Int80.Cpu → ℕ → ℕ → List ℕ → ℕ × Int80.Cpu
call32 k r number args [] = Int80.syscall0 k r number
call32 k r number args (a ∷ []) = Int80.syscall1 k r number a
call32 k r number args (a ∷ b ∷ []) = Int80.syscall2 k r number a b
call32 k r number args (a ∷ b ∷ c ∷ []) = Int80.syscall3 k r number a b c
call32 k r number args (a ∷ b ∷ c ∷ d ∷ []) = Int80.syscall4 k r number a b c d
call32 k r number args (a ∷ b ∷ c ∷ d ∷ e ∷ []) = Int80.syscall5 k r number a b c d e
call32 k r number args (a ∷ b ∷ c ∷ d ∷ e ∷ f ∷ _) = Int80.syscall6 k r number args a b c d e f

-- What the caller should see: a value of 31 bits as it is, an error as -1 and in `errno`.
abbrev pub reported : ℕ → Outcome → Long.Result
reported errno (Outcome.done v) = record { errno = errno; value = v }
reported errno (Outcome.failed e) = record { errno = e; value = 2 ^ 32 - 1 }

abbrev pub IsOrdinary : ℕ → Outcome → Type 0
IsOrdinary limit (Outcome.done v) = v < 2 ^ 31
IsOrdinary limit (Outcome.failed e) = (1 ≤ e) × (e ≤ limit)

syscall_return-encode :
    (errno : ℕ) (o : Outcome)
    → IsOrdinary 127 o
    → Long.syscall_return errno (encode (2 ^ 64) o) ≡ reported errno o
unfolding Long.syscall_return
syscall_return-encode errno (Outcome.done v) h = ground arith
syscall_return-encode errno (Outcome.failed e) h = ground arith

value_lem :
    (o : Outcome)
    → IsOrdinary 129 o
    → Int80.syscall_return (encode (2 ^ 32) o) ≡ (reported 0 o).value
unfolding Int80.syscall_return
value_lem (Outcome.done v) h = ground arith
value_lem (Outcome.failed e) h = ground arith

-- An error number of the kernel as the 64-bit stubs report it.
syscall_return-failed :
    (errno e : ℕ)
    → 1 ≤ e
    → e ≤ 4095
    → Long.syscall_return errno (encode (2 ^ 64) (Outcome.failed e)) ≡ (
        if leb e 127
        then reported errno (Outcome.failed e)
        else record { errno = errno; value = 2 ^ 32 - e })
unfolding Long.syscall_return
syscall_return-failed errno e low high = ground arith

value_failed :
    (errno e : ℕ)
    → 1 ≤ e
    → e ≤ 4095
    → let r : Long.Result =
        if leb e 127
        then reported errno (Outcome.failed e)
        else record { errno = errno; value = 2 ^ 32 - e } in
      (r.value ≡ 2 ^ 32 - 1) ↔ (e ≤ 127)
value_failed errno e low high = (λ h. ground arith, λ h. ground arith)

module _ (arity : ℕ → ℕ) (serve : ℕ → List ℕ → Outcome) where
  -- The stub returns what it makes of the kernel's outcome.
  call64-syscall_return :
      (before : Long.Regs) (errno number : ℕ) (args : List ℕ)
      → arity number ≡ length args
      → length args ≤ 6
      → call64 (kernel64 arity serve) before errno number args
        ≡ Long.syscall_return errno (encode (2 ^ 64) (serve number args))
  unfolding Long.syscall0 Long.syscall1 Long.syscall2 Long.syscall3 Long.syscall4 Long.syscall5
      Long.syscall6
  call64-syscall_return before errno number [] n le = rw n refl
  call64-syscall_return before errno number (a ∷ []) n le = rw n refl
  call64-syscall_return before errno number (a ∷ b ∷ []) n le = rw n refl
  call64-syscall_return before errno number (a ∷ b ∷ c ∷ []) n le = rw n refl
  call64-syscall_return before errno number (a ∷ b ∷ c ∷ d ∷ []) n le = rw n refl
  call64-syscall_return before errno number (a ∷ b ∷ c ∷ d ∷ e ∷ []) n le = rw n refl
  call64-syscall_return before errno number (a ∷ b ∷ c ∷ d ∷ e ∷ f ∷ []) n le = rw n refl
  call64-syscall_return before errno number (a ∷ b ∷ c ∷ d ∷ e ∷ f ∷ g ∷ l) n le =
      absurd (omega arith)

  -- Where CPU_BITS is 64, the stub for the arguments of a call gives the outcome that the kernel
  -- computes from its number and arguments, for up to six arguments, values of 31 bits and error
  -- numbers up to 127, whatever else the registers hold.
  pub call64-kernel64 :
      (before : Long.Regs) (errno number : ℕ) (args : List ℕ)
      → arity number ≡ length args
      → length args ≤ 6
      → IsOrdinary 127 (serve number args)
      → call64 (kernel64 arity serve) before errno number args ≡ reported errno (serve number args)
  call64-kernel64 before errno number args n le h =
      call64-syscall_return before errno number args n le
      ∙ syscall_return-encode errno (serve number args) h

  -- Where CPU_BITS is 32, the stub for the arguments of a call gives the value that the kernel
  -- computes from its number and arguments, or -1 for an error number up to 129, for up to six
  -- arguments and values of 31 bits; and it leaves %ebx, %ebp and the stack as they were.
  pub call32-kernel32 :
      (before : Int80.Cpu) (number address : ℕ) (args : List ℕ)
      → arity number ≡ length args
      → length args ≤ 6
      → IsOrdinary 129 (serve number args)
      → let out = call32 (kernel32 arity serve) before number address args in
        (out.0 ≡ (reported 0 (serve number args)).value)
        × (out.1.regs.ebx ≡ before.regs.ebx)
        × (out.1.regs.ebp ≡ before.regs.ebp)
        × (out.1.stack ≡ before.stack)
  unfolding Int80.syscall0 Int80.syscall1 Int80.syscall2 Int80.syscall3 Int80.syscall4
      Int80.syscall5 Int80.syscall6
  call32-kernel32 before number at [] n le h = (rw n (value_lem _ h), refl, refl, refl)
  call32-kernel32 before number at (a ∷ []) n le h = (rw n (value_lem _ h), refl, refl, refl)
  call32-kernel32 before number at (a ∷ b ∷ []) n le h = (rw n (value_lem _ h), refl, refl, refl)
  call32-kernel32 before number at (a ∷ b ∷ c ∷ []) n le h =
      (rw n (value_lem _ h), refl, refl, refl)
  call32-kernel32 before number at (a ∷ b ∷ c ∷ d ∷ []) n le h =
      (rw n (value_lem _ h), refl, refl, refl)
  call32-kernel32 before number at (a ∷ b ∷ c ∷ d ∷ e ∷ []) n le h =
      (rw n (value_lem _ h), refl, refl, refl)
  call32-kernel32 before number at (a ∷ b ∷ c ∷ d ∷ e ∷ f ∷ []) n le h =
      (rw n (value_lem _ h), refl, refl, refl)
  call32-kernel32 before number at (a ∷ b ∷ c ∷ d ∷ e ∷ f ∷ g ∷ l) n le h = absurd (omega arith)

  -- Where CPU_BITS is 64 and the kernel fails a call of up to six arguments with an error number up
  -- to 4095, its greatest, the stub for the arguments of the call reports -1 and the number in
  -- `errno` if the number is at most 127; otherwise `errno` stays as it was, and the value is the
  -- negated number, not -1.
  pub call64-failed :
      (before : Long.Regs) (errno number e : ℕ) (args : List ℕ)
      → arity number ≡ length args
      → length args ≤ 6
      → serve number args ≡ Outcome.failed e
      → 1 ≤ e
      → e ≤ 4095
      → (call64 (kernel64 arity serve) before errno number args ≡ (
          if leb e 127
          then reported errno (Outcome.failed e)
          else record { errno = errno; value = 2 ^ 32 - e }))
        × (((call64 (kernel64 arity serve) before errno number args).value ≡ 2 ^ 32 - 1)
            ↔ (e ≤ 127))
  call64-failed before errno number e args n le fails low high =
      let same =
        call64-syscall_return before errno number args n le
        ∙ ap (λ (o : Outcome). Long.syscall_return errno (encode (2 ^ 64) o)) fails
        ∙ syscall_return-failed errno e low high in
      (same, rw same (value_failed errno e low high))
