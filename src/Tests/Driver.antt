-- ===== src/Tests/Driver.antt =====
-- The driver with a block of memory that does not start a page.
use htsynch.Base.{
  ℕ, ◌+◌, ◌-◌, ◌*◌, Bool, Option, some, get_elem?, ◌/◌, ◌≡◌, refl, true, false, arith,
  if◌then◌else◌,
}
use htsynch.KmemMapper.Driver.{
  page_loop, fill_loop, Driver, Status, kmem_mapper_init, kmem_mapper_open,
}
use htsynch.KmemMapper.Check.{view, opened_byte, read_loop, write_loop, kmem_mapper_test_lem}
use htsynch.KmemMapper.Pages.{Tables, virt_to_kseg, virt_to_kseg_lem, virt_to_kseg_unmapped}
use htsynch.KmemMapper.Laws.{
  within, WellPlaced, CounterPlaced, kmem_mapper_init-WellPlaced, kmem_mapper_init_failed,
}

abbrev block : ℕ → ℕ
block size = 10000

abbrev no_block : ℕ → ℕ
no_block size = 0

abbrev unloaded : Driver
unloaded = record {
  region = false;
  cdev = false;
  allocated = false;
  kmalloc_ptr = 0;
  area = 0;
  area2 = 0;
  lint_var = 0;
  page_reserved = λ _. false;
  memory = λ _. 0;
}

kmem_mapper_init-WellPlaced_example :
    let out = kmem_mapper_init true Status.ok Status.ok block unloaded in
    (out.0 ≡ Status.ok)
    × WellPlaced 10000 out.1
    × CounterPlaced (kmem_mapper_init true Status.ok Status.ok block unloaded).1
    × (out.1.region ≡ true)
    × (out.1.cdev ≡ true)
    × (out.1.allocated ≡ true)
    × (out.1.page_reserved (out.1.area / 4096) ≡ true)
kmem_mapper_init-WellPlaced_example =
    kmem_mapper_init-WellPlaced true block unloaded (λ e. absurd (omega (arith, e))) (omega arith)

kmem_mapper_init_failed_example :
    let out = (kmem_mapper_init true Status.ok Status.ok no_block unloaded).1 in
    (out.region ≡ true) × (out.cdev ≡ true) × (out.allocated ≡ false)
unfolding kmem_mapper_init
kmem_mapper_init_failed_example =
    kmem_mapper_init_failed true Status.ok Status.ok no_block unloaded refl (λ e. cc)

abbrev loaded : Driver
loaded = (kmem_mapper_init true Status.ok Status.ok block unloaded).1

-- The mapping is at 500000.
abbrev mmap_once : ℕ → ℕ → ℕ → Option ℕ
mmap_once fd len offset = some 500000

loaded-regions : loaded.area2 ≡ loaded.area + 512
unfolding kmem_mapper_init page_loop fill_loop
loaded-regions = refl

-- The fourth byte that is printed, and a byte of the page that is not.
kmem_mapper_test_lem_example :
    let v = view (kmem_mapper_open loaded).1 500000 in
    (get_elem? (read_loop 1024 0 v 500000) 3 ≡ some (opened_byte loaded 3))
    × (write_loop 10 0 v 500000 502000
        ≡ (if within 500000 10 502000 then 502000 - 500000 + 110 else v 502000))
kmem_mapper_test_lem_example =
    let v = view (kmem_mapper_open loaded).1 500000 in
    kmem_mapper_test_lem loaded mmap_once 7 4096 500000 3 502000 (read_loop 1024 0 v 500000)
      (write_loop 10 0 v 500000) loaded-regions refl refl (omega arith)

-- The kernel's addresses at a fixed distance from the pages.
abbrev tables : Bool → Tables
tables present = record {
  pgd_none = λ va. false;
  pmd_none = λ va. false;
  pte_present = λ va. present;
  page_address = λ va. va / 4096 * 4096 + 40960;
}

found_page : virt_to_kseg (tables true) 5000 ≡ 45960
found_page = virt_to_kseg_lem (tables true) 5000 refl (refl, refl, refl)

absent_page : virt_to_kseg (tables false) 5000 ≡ 0
absent_page = virt_to_kseg_unmapped (tables false) 5000 refl
