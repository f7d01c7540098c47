-- ===== src/KmemMapper/Laws.antt =====
-- Where the driver puts the two regions, and what its start and its end leave held.
use htsynch.Base.{
  ℕ, zero, suc, ◌+◌, ◌-◌, ◌*◌, ◌/◌, ◌%◌, ◌^◌, ◌<◌, ◌≤◌, ◌≡◌, ◌≢◌, ap, ◌∙◌, Bool, true, false, arith,
  update, ltb, leb, ◌&&◌, ◌||◌, if◌then◌else◌,
}
use htsynch.Base.Bits.{bit_and-page}
use htsynch.Monitor.Defs.{original_val, monitored_mem_bytes}
use htsynch.KmemMapper.Driver.{
  page_size, len, Driver, Status, ok, negated, fill_loop, page_loop, kmem_mapper_init,
  kmem_mapper_exit, kmem_mapper_open,
}

abbrev pub is_ok : Status → Bool
is_ok ok = true
is_ok (negated e) = false

-- The line of memory that an address lies in.
abbrev line : ℕ → ℕ
line a = a / monitored_mem_bytes

-- The area is a page inside the block of memory at `p`, and the two regions start lines of their own.
abbrev pub WellPlaced : ℕ → Driver → Type 0
WellPlaced p d =
    (d.area % page_size ≡ 0)
    × (p ≤ d.area)
    × (d.area + len ≤ p + (len + 2 * page_size))
    × (d.area2 % monitored_mem_bytes ≡ 0)
    × (d.area2 + 10 ≤ d.area + len)
    × (line d.area < line d.area2)

-- The counter lies between them, on lines of its own.
abbrev pub CounterPlaced : Driver → Type 0
CounterPlaced d =
    (d.lint_var + 8 ≤ d.area2)
    × (line d.area < line d.lint_var)
    × (line (d.lint_var + 7) < line d.area2)

-- The start of the driver, if nothing fails and the block does not wrap, places the regions well,
-- and, built for KERNEL_2_6_13_1, the counter too; it holds all it asked for, and reserves the area's
-- page.
pub kmem_mapper_init-WellPlaced :
    (built : Bool) (kmalloc : ℕ → ℕ) (d : Driver)
    → kmalloc (len + 2 * page_size) ≢ 0
    → kmalloc (len + 2 * page_size) + (len + 2 * page_size) ≤ 2 ^ 64
    → let out = kmem_mapper_init built ok ok kmalloc d in
      (out.0 ≡ ok)
      × WellPlaced (kmalloc (len + 2 * page_size)) out.1
      × CounterPlaced (kmem_mapper_init true ok ok kmalloc d).1
      × (out.1.region ≡ true)
      × (out.1.cdev ≡ true)
      × (out.1.allocated ≡ true)
      × (out.1.page_reserved (out.1.area / page_size) ≡ true)
unfolding kmem_mapper_init fill_loop page_loop
kmem_mapper_init-WellPlaced built kmalloc d some_block fits =
    ground
      (arith, bit_and-page ((kmalloc (len + 2 * page_size) + page_size - 1) % 2 ^ 64) (omega arith))

-- What a failing start leaves held: nothing if the numbers were refused, and the numbers, and the
-- device if only the memory was refused, as the error paths give nothing back.
pub kmem_mapper_init_failed :
    (built : Bool) (register add : Status) (kmalloc : ℕ → ℕ) (d : Driver)
    → d.cdev ≡ false
    → (kmem_mapper_init built register add kmalloc d).0 ≢ ok
    → let out = (kmem_mapper_init built register add kmalloc d).1 in
      (out.region ≡ is_ok register)
      × (out.cdev ≡ (is_ok register && is_ok add))
      × (out.allocated ≡ d.allocated)
unfolding kmem_mapper_init
kmem_mapper_init_failed built ok ok kmalloc d none_yet bad = ground arith
kmem_mapper_init_failed built ok (negated e) kmalloc d none_yet bad = ground arith
kmem_mapper_init_failed built (negated e) add kmalloc d none_yet bad = ground arith

-- After the end of the driver nothing is held, and the area's page is not reserved.
pub kmem_mapper_exit_lem :
    (d : Driver)
    → let out = kmem_mapper_exit d in
      (out.region ≡ false)
      × (out.cdev ≡ false)
      × (out.allocated ≡ false)
      × (out.page_reserved (d.area / page_size) ≡ false)
unfolding kmem_mapper_exit page_loop
kmem_mapper_exit_lem d = ground arith

-- One of the `n` addresses from `low` on.
abbrev pub within : ℕ → ℕ → ℕ → Bool
within low n a = leb low a && ltb a (low + n)

fill_loop_lem :
    (left i : ℕ) (d : Driver) (a : ℕ)
    → (fill_loop left i d).memory a ≡ (
        if within (d.area + i) left a || within (d.area2 + i) left a
        then original_val
        else d.memory a)
unfolding fill_loop
fill_loop_lem zero i d a = ground arith
fill_loop_lem (suc left) i d a =
    fill_loop_lem left (i + 1)
      (record d {
        memory = update (update d.memory (d.area + i) original_val) (d.area2 + i) original_val;
      })
      a
    ∙ fill_step
  where
    fill_step :
        (if within (d.area + (i + 1)) left a || within (d.area2 + (i + 1)) left a
          then original_val
          else update (update d.memory (d.area + i) original_val) (d.area2 + i) original_val a)
        ≡ (if within (d.area + i) (suc left) a || within (d.area2 + i) (suc left) a
            then original_val
            else d.memory a)
    fill_step = ground arith

-- Opening the device stores the original value in the first ten bytes of both regions, and leaves
-- all other bytes.
pub kmem_mapper_open_lem :
    (d : Driver) (a : ℕ)
    → (kmem_mapper_open d).1.memory a
      ≡ (if within d.area 10 a || within d.area2 10 a then original_val else d.memory a)
unfolding kmem_mapper_open
kmem_mapper_open_lem d a =
    let first : d.area + 0 ≡ d.area = omega arith in
    let second : d.area2 + 0 ≡ d.area2 = omega arith in
    fill_loop_lem 10 0 d a
    ∙ ap
        (λ (x : ℕ). if within x 10 a || within (d.area2 + 0) 10 a then original_val else d.memory a)
        first
    ∙ ap (λ (x : ℕ). if within d.area 10 a || within x 10 a then original_val else d.memory a)
        second
