-- ===== src/KmemMapper/Driver.antt =====
-- The state of kmem_mapper_module/kmem_mapper.c and the functions of the device. The kernel's
-- functions are parameters where they can fail.
use Prim.Native.Nat.{bit_and}
use htsynch.Base.{
  ℕ, zero, suc, ◌+◌, ◌-◌, ◌*◌, ◌/◌, ◌%◌, ◌^◌, ltb, ◌==◌, if◌then◌else◌, Bool, true, false, update,
}
use htsynch.Monitor.Defs.{original_val}
use htsynch.Monitor.Counter.{lint_var_offset}

abbrev pub page_size : ℕ
page_size = 4096

-- LEN
abbrev pub len : ℕ
len = 4096

abbrev pub monitored_regions_distance : ℕ
monitored_regions_distance = 512

-- `region`, `cdev` and `allocated` say whether the numbers, the device and the memory are held;
-- `page_reserved` goes by page numbers, `memory` by addresses of bytes.
pub record Driver : Type 0 where
  pub region : Bool
  pub cdev : Bool
  pub allocated : Bool
  pub kmalloc_ptr : ℕ
  pub area : ℕ
  pub area2 : ℕ
  pub lint_var : ℕ
  pub page_reserved : ℕ → Bool
  pub memory : ℕ → ℕ

-- What the module's functions return: 0, or an error number negated.
pub data Status : Type 0 where
  ok : Status
  negated : ℕ → Status

-- The first ten bytes of both regions, from number `i` on.
unfoldable pub fill_loop : ℕ → ℕ → Driver → Driver
fill_loop zero i d = d
fill_loop (suc left) i d = fill_loop left (i + 1) (record d {
  memory = update (update d.memory (d.area + i) original_val) (d.area2 + i) original_val;
})

abbrev pub fill : Driver → Driver
fill d = fill_loop 10 0 d

-- The loops over the pages of the area, from `virt_addr` on; `b` is what they set.
unfoldable pub page_loop : Bool → ℕ → ℕ → Driver → Driver
page_loop b zero virt_addr d = d
page_loop b (suc fuel) virt_addr d =
    let rest =
      page_loop b fuel (virt_addr + page_size)
        (record d { page_reserved = update d.page_reserved (virt_addr / page_size) b }) in
    if ltb virt_addr (d.area + len) then rest else d

unfoldable pub kmem_mapper_open : Driver → Status × Driver
kmem_mapper_open d = (ok, fill d)

unfoldable pub kmem_mapper_release : Driver → Status × Driver
kmem_mapper_release d = (ok, d)

-- `remap_pfn_range` gets the start, the page frame and the size, and gives 0 for success.
unfoldable pub kmem_mapper_mmap : (ℕ → ℕ → ℕ → ℕ) → (ℕ → ℕ) → ℕ → ℕ → Driver → Status
kmem_mapper_mmap remap_pfn_range virt_to_phys vm_start vm_end d =
    if remap_pfn_range vm_start (virt_to_phys d.area / page_size) (vm_end - vm_start) == 0
    then ok
    else negated 11

-- The end of `kmem_mapper_init`, with the memory at hand. `kernel_2_6_13_1` says whether
-- KERNEL_2_6_13_1 is defined; only then it sets the address of the counter.
abbrev pub set_up : Bool → ℕ → Driver → Driver
set_up kernel_2_6_13_1 p d =
    let area = bit_and (2 ^ 64 - page_size) ((p + page_size - 1) % 2 ^ 64) in
    let placed = record d {
      allocated = true;
      kmalloc_ptr = p;
      area = area;
      area2 = area + monitored_regions_distance;
    } in
    let filled = fill (page_loop true 2 area placed) in
    record filled {
      lint_var = if kernel_2_6_13_1 then filled.area + lint_var_offset else filled.lint_var;
    }

-- `built` is as `kernel_2_6_13_1` above; `register` and `add` are what `register_chrdev_region` and `cdev_add` return; `kmalloc` gives an
-- address for a size, or 0.
unfoldable pub kmem_mapper_init : Bool → Status → Status → (ℕ → ℕ) → Driver → Status × Driver
kmem_mapper_init built (negated e) add kmalloc d = (negated e, record d { region = false })
kmem_mapper_init built ok (negated e) kmalloc d = (negated e, record d { region = true })
kmem_mapper_init built ok ok kmalloc d =
    let p = kmalloc (len + 2 * page_size) in
    let held = record d { region = true; cdev = true } in
    if p == 0 then (negated 1, record held { kmalloc_ptr = 0 }) else (ok, set_up built p held)

unfoldable pub kmem_mapper_exit : Driver → Driver
kmem_mapper_exit d =
    let cleared = page_loop false 2 d.area d in
    record cleared { allocated = false; cdev = false; region = false }
