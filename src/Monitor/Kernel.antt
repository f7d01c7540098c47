-- ===== src/Monitor/Kernel.antt =====
-- The memory of the calls `sys_mwmon_kernel_...`: `my_kmalloc_align`, `sys_mwmon_kernel_init` and
-- `sys_mwmon_kernel_finalize` of kernel/cpu_controls.c in mwmon-2.6.13.1-twopackages.patch, and
-- `malloc_aligned` of user_monitor_user_notification/thread_test_umon_unot.c. `kmalloc` and `malloc`
-- are parameters that give an address for a size, or 0.
use Prim.Native.Nat.{bit_and}
use htsynch.Base.{
  ℕ, ◌+◌, ◌-◌, ◌/◌, ◌%◌, ◌^◌, ◌≤◌, ◌≡◌, ◌≢◌, ◌↔◌, arith, ltb, leb, ◌==◌, ◌&&◌, if◌then◌else◌, Bool,
  Option, none, some,
}
use htsynch.Base.Bits.{bit_and-line}
use htsynch.Monitor.Defs.{monitored_mem_bytes, original_val}
use htsynch.KmemMapper.Driver.{Status, ok, negated}

-- MWMON_ALIGN_BOUNDARY
abbrev pub align_boundary : ℕ
align_boundary = 64

-- `memory` is `__mwmon_kernel_memory`, `bytes` what each address holds.
pub record Kernel : Type 0 where
  pub memory : ℕ
  pub bytes : ℕ → ℕ

-- `~(alignment - 1)` is taken of an `int` that is extended to 64 bits.
abbrev pub my_kmalloc_align : (ℕ → ℕ) → ℕ → ℕ → ℕ
my_kmalloc_align kmalloc alignment size =
    let p = kmalloc (size + alignment - 1) in
    if p == 0 then 0 else bit_and (2 ^ 64 - alignment) ((p + alignment - 1) % 2 ^ 64)

-- `none` if the process exits.
abbrev pub malloc_aligned : (ℕ → ℕ) → ℕ → ℕ → Option ℕ
malloc_aligned malloc size alignment =
    let p = malloc (size + alignment - 1) in
    if p == 0 then none else some (bit_and (2 ^ 64 - alignment) ((p + alignment - 1) % 2 ^ 64))

-- One of the `n` addresses from `low` on.
abbrev pub within : ℕ → ℕ → ℕ → Bool
within low n a = leb low a && ltb a (low + n)

abbrev pub memset : ℕ → ℕ → ℕ → (ℕ → ℕ) → ℕ → ℕ
memset s c n bytes a = if within s n a then c else bytes a

unfoldable pub sys_mwmon_kernel_init : (ℕ → ℕ) → Kernel → Status × Kernel
sys_mwmon_kernel_init kmalloc k =
    let p = my_kmalloc_align kmalloc align_boundary monitored_mem_bytes in
    if p == 0
    then (negated 12, record k { memory = p })
    else (ok, record { memory = p; bytes = memset p original_val monitored_mem_bytes k.bytes })

-- The address that `kfree` is given.
abbrev pub sys_mwmon_kernel_finalize : Kernel → ℕ
sys_mwmon_kernel_finalize k = k.memory

-- If `kmalloc` gives a block that does not wrap, the memory is one whole line inside the block, each
-- of its bytes holds the original value, no other byte has changed, and what
-- `sys_mwmon_kernel_finalize` gives back later is the block's address just if that began a line.
pub sys_mwmon_kernel_init_lem :
    (kmalloc : ℕ → ℕ) (k : Kernel) (a : ℕ)
    → kmalloc 127 ≢ 0
    → kmalloc 127 + 127 ≤ 2 ^ 64
    → let p = kmalloc 127 in
      let out = sys_mwmon_kernel_init kmalloc k in
      (out.0 ≡ ok)
      × (out.1.memory % monitored_mem_bytes ≡ 0)
      × (p ≤ out.1.memory)
      × (out.1.memory + monitored_mem_bytes ≤ p + 127)
      × (out.1.bytes a ≡ (
          if a / monitored_mem_bytes == out.1.memory / monitored_mem_bytes
          then original_val
          else k.bytes a))
      × ((sys_mwmon_kernel_finalize out.1 ≡ p) ↔ (p % monitored_mem_bytes ≡ 0))
unfolding sys_mwmon_kernel_init
sys_mwmon_kernel_init_lem kmalloc k a some_block fits =
    ground (arith, bit_and-line ((kmalloc 127 + 64 - 1) % 2 ^ 64) (omega arith))

-- Where it returns, the memory of `malloc_aligned` is one line inside the block.
pub malloc_aligned_lem :
    (malloc : ℕ → ℕ) (m : ℕ)
    → malloc 127 + 127 ≤ 2 ^ 64
    → malloc_aligned malloc monitored_mem_bytes align_boundary ≡ some m
    → (m % monitored_mem_bytes ≡ 0)
      × (malloc 127 ≤ m)
      × (m + monitored_mem_bytes ≤ malloc 127 + 127)
malloc_aligned_lem malloc m fits e =
    ground (arith, bit_and-line ((malloc 127 + 64 - 1) % 2 ^ 64) (omega arith))
