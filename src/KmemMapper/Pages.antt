-- ===== src/KmemMapper/Pages.antt =====
-- `virt_to_kseg` of kmem_mapper_module/kmem_mapper.c, which looks a kernel address up in the page
-- tables. Nothing in the module calls it. The tables are the kernel's and a parameter.
use Prim.Native.Nat.{bit_and, bit_or}
use htsynch.Base.{
  ℕ, ◌+◌, ◌-◌, ◌*◌, ◌/◌, ◌%◌, ◌^◌, ◌≡◌, ◌||◌, not, if◌then◌else◌, Bool, true, false, arith, ap, ◌∙◌,
}
use htsynch.Base.Bits.{bit_and-page_offset, bit_or_low}
use htsynch.KmemMapper.Driver.{page_size}

-- What the macros of the kernel find for an address: whether an entry of the two upper tables is
-- missing, whether the page is present, and where it is.
pub record Tables : Type 0 where
  pub pgd_none : ℕ → Bool
  pub pmd_none : ℕ → Bool
  pub pte_present : ℕ → Bool
  pub page_address : ℕ → ℕ

abbrev pub virt_to_kseg : Tables → ℕ → ℕ
virt_to_kseg T va =
    if not (T.pgd_none va)
    then if not (T.pmd_none va)
      then if T.pte_present va then bit_or (T.page_address va) (bit_and (page_size - 1) va) else 0
      else 0
    else 0

abbrev pub IsMapped : Tables → ℕ → Type 0
IsMapped T va = (T.pgd_none va ≡ false) × (T.pmd_none va ≡ false) × (T.pte_present va ≡ true)

-- If pages are at multiples of the page size, then a mapped address is found at its offset in its
-- page.
pub virt_to_kseg_lem :
    (T : Tables) (va : ℕ)
    → T.page_address va % page_size ≡ 0
    → IsMapped T va
    → virt_to_kseg T va ≡ T.page_address va + va % page_size
virt_to_kseg_lem T va h (a, b, c) =
    let p = T.page_address va in
    let q : p ≡ p / 4096 * 2 ^ 12 = omega arith in
    let found : bit_or p (va % 4096) ≡ p + va % 4096 =
      ap (λ (t : ℕ). bit_or t (va % 4096)) q
      ∙ bit_or_low 12 (va % 4096) (p / 4096) (omega arith)
      ∙ omega arith in
    rw (a, b, c, bit_and-page_offset va) found

-- An address that is not mapped is found nowhere.
pub virt_to_kseg_unmapped :
    (T : Tables) (va : ℕ)
    → (T.pgd_none va || T.pmd_none va || not (T.pte_present va)) ≡ true
    → virt_to_kseg T va ≡ 0
virt_to_kseg_unmapped T va h = ground arith
