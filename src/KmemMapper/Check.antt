-- ===== src/KmemMapper/Check.antt =====
-- `main` of kmem_mapper_module/kmem_mapper_test.c, which reads the shared page through a mapping and
-- changes its first bytes.
use htsynch.Base.{
  ℕ, zero, suc, ◌+◌, ◌*◌, ◌-◌, ◌<◌, ◌≡◌, refl, ap, sym, ◌∙◌, arith, List, [], ◌∷◌, get_elem?,
  Option, none, some, update, ltb, ◌||◌, if◌then◌else◌,
}
use htsynch.Demo.Device.{map_device}
use htsynch.Monitor.Defs.{original_val}
use htsynch.KmemMapper.Driver.{Driver, kmem_mapper_open, fill_loop}
use htsynch.KmemMapper.Laws.{kmem_mapper_open_lem, within}

-- The bytes that the first loop prints, from number `i` on.
unfoldable pub read_loop : ℕ → ℕ → (ℕ → ℕ) → ℕ → List ℕ
read_loop zero i memory kadr = []
read_loop (suc left) i memory kadr = memory (kadr + i) ∷ read_loop left (i + 1) memory kadr

-- The stores of the second loop.
unfoldable pub write_loop : ℕ → ℕ → (ℕ → ℕ) → ℕ → ℕ → ℕ
write_loop zero i memory kadr = memory
write_loop (suc left) i memory kadr =
    write_loop left (i + 1) (update memory (kadr + i) (i + 110)) kadr

-- What is printed, and the memory at the end; `none` if the process exits.
abbrev pub kmem_mapper_test :
    Option ℕ → (ℕ → ℕ → ℕ → Option ℕ) → ℕ → (ℕ → ℕ) → Option (List ℕ × (ℕ → ℕ))
kmem_mapper_test opened mmap page memory = elim (map_device opened mmap page) [
  | none ↦ none
  | some kadr ↦ some (read_loop 1024 0 memory kadr, write_loop 10 0 memory kadr)
]

get_elem?-read_loop :
    (left i : ℕ) (memory : ℕ → ℕ) (kadr k : ℕ)
    → k < left
    → get_elem? (read_loop left i memory kadr) k ≡ some (memory (kadr + (i + k)))
unfolding read_loop
get_elem?-read_loop zero i memory kadr k lt = absurd (omega arith)
get_elem?-read_loop (suc left) i memory kadr zero lt = ap (λ (n : ℕ). some (memory n)) (omega arith)
get_elem?-read_loop (suc left) i memory kadr (suc k) lt =
    get_elem?-read_loop left (i + 1) memory kadr k (omega arith)
    ∙ ap (λ (n : ℕ). some (memory n)) (omega arith)

write_loop_lem :
    (left i : ℕ) (memory : ℕ → ℕ) (kadr a : ℕ)
    → write_loop left i memory kadr a
      ≡ (if within (kadr + i) left a then a - kadr + 110 else memory a)
unfolding write_loop
write_loop_lem zero i memory kadr a = ground arith
write_loop_lem (suc left) i memory kadr a =
    ground (arith, write_loop_lem left (i + 1) (update memory (kadr + i) (i + 110)) kadr a)

-- The page as the process sees it, mapped at `kadr`.
abbrev pub view : Driver → ℕ → ℕ → ℕ
view d kadr a = d.memory (d.area + (a - kadr))

view_at : (d : Driver) (kadr k : ℕ) → view d kadr (kadr + k) ≡ d.memory (d.area + k)
view_at d kadr k = ap (λ (n : ℕ). d.memory (d.area + n)) (omega arith)

-- What the process reads at offset `k` of a page that has just been opened.
abbrev pub opened_byte : Driver → ℕ → ℕ
opened_byte d k = if ltb k 10 || within 512 10 k then original_val else d.memory (d.area + k)

area-open : (d : Driver) → (kmem_mapper_open d).1.area ≡ d.area
unfolding kmem_mapper_open fill_loop
area-open d = refl

open-view :
    (d : Driver) (kadr k : ℕ)
    → d.area2 ≡ d.area + 512
    → view (kmem_mapper_open d).1 kadr (kadr + k) ≡ opened_byte d k
open-view d kadr k regions =
    view_at (kmem_mapper_open d).1 kadr k
    ∙ ap (λ (n : ℕ). (kmem_mapper_open d).1.memory (n + k)) (area-open d)
    ∙ kmem_mapper_open_lem d (d.area + k)
    ∙ ground arith

-- On a page that has just been opened, with the second region 512 bytes on, the program prints the
-- first 1024 bytes that the driver holds, with the original value in the first ten of both regions,
-- and leaves 110 and its offset in each of the first ten bytes of the mapping and the byte at every
-- other address as it was.
pub kmem_mapper_test_lem :
    (d : Driver) (mmap : ℕ → ℕ → ℕ → Option ℕ) (fd page kadr k a : ℕ) (printed : List ℕ)
    (after : ℕ → ℕ)
    → d.area2 ≡ d.area + 512
    → mmap fd (1 * page) (1 * page) ≡ some kadr
    → kmem_mapper_test (some fd) mmap page (view (kmem_mapper_open d).1 kadr)
      ≡ some (printed, after)
    → k < 1024
    → (get_elem? printed k ≡ some (opened_byte d k))
      × (after a
          ≡ (if within kadr 10 a then a - kadr + 110 else view (kmem_mapper_open d).1 kadr a))
kmem_mapper_test_lem d mmap fd page kadr k a printed after regions mapped ran lt =
    let v = view (kmem_mapper_open d).1 kadr in
    let results =
      ap
        (λ (o : Option ℕ). elim o [
          | none ↦ none
          | some b ↦ some (read_loop 1024 0 v b, write_loop 10 0 v b)
        ])
        (sym mapped)
      ∙ ran in
    let p : read_loop 1024 0 v kadr ≡ printed = cc results in
    let q : write_loop 10 0 v kadr ≡ after = cc results in
    (
      ap (λ (l : List ℕ). get_elem? l k) (sym p)
          ∙ get_elem?-read_loop 1024 0 v kadr k lt
          ∙ ap (λ (n : ℕ). some (v (kadr + n))) (omega arith)
          ∙ ap (λ (n : ℕ). some n) (open-view d kadr k regions),
      ap (λ (f : ℕ → ℕ). f a) (sym q) ∙ write_loop_lem 10 0 v kadr a ∙ ground arith,
    )
