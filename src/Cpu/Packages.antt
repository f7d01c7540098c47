-- ===== src/Cpu/Packages.antt =====
-- `get_pkid` finds the package that lists a processor.
use htsynch.Base.{
  ℕ, zero, suc, ◌+◌, ◌<◌, ◌≤◌, ◌≡◌, ◌==◌, Bool, not, ltb, ap, sym, ◌∙◌, true, false, if◌then◌else◌,
  refl, List, get_elem?, Option, none, some, arith, length, dec_lt, ◌∷◌, [],
}
use htsynch.Cpu.Machines.{
  Package, Cpus, Machine, num_cpus, cpus, Search, found, absent, beyond, Pkid, pkid, minus_one,
  overrun, sibling_loop, package_loop, get_pkid,
}

-- The processor stands in the siblings from `j` on, `left` of them.
abbrev pub Stands : ℕ → List ℕ → ℕ → ℕ → Type 0
Stands cpu sib j left = (m : ℕ) × (j ≤ m) × (m < j + left) × (get_elem? sib m ≡ some cpu)

-- `get_pkid` has returned -1.
abbrev pub is_minus_one : Pkid → Bool
is_minus_one minus_one = true
is_minus_one _ = false

abbrev Sibling : ℕ → List ℕ → ℕ → ℕ → Search → Type 0
Sibling cpu sib j left found = Stands cpu sib j left
Sibling cpu sib j left absent = ¬ Stands cpu sib j left
Sibling cpu sib j left beyond = length sib < j + left

length-get_elem? : {A : Type 0} (l : List A) (i : ℕ) → get_elem? l i ≡ none → length l ≤ i
length-get_elem? [] i e = omega arith
length-get_elem? (a ∷ l) zero e = cc
length-get_elem? (a ∷ l) (suc i) e = omega (arith, length-get_elem? l i e)

module _ (cpu : ℕ) (sib : List ℕ) (j left : ℕ) where
  Stands-suc :
      (k : ℕ)
      → get_elem? sib j ≡ some k
      → (cpu == k) ≡ false
      → Stands cpu sib j (suc left)
      → Stands cpu sib (suc j) left
  Stands-suc k e ne (m, low, high, at) = elim (dec_lt j m) [
    | yes after ↦ (m, omega arith, omega arith, at)
    | no here ↦ let same : m ≡ j = omega arith in absurd (ground (arith, same))
  ]

  Sibling-if :
      (k : ℕ)
      → get_elem? sib j ≡ some k
      → (b : Bool) → (cpu == k) ≡ b
      → (rest : Search) → Sibling cpu sib (suc j) left rest
      → Sibling cpu sib j (suc left) (if b then found else rest)
  Sibling-if k e true same rest h =
      let eq : k ≡ cpu = ground arith in
      (j, omega arith, omega arith, e ∙ ap (λ (x : ℕ). some x) eq)
  Sibling-if k e false ne found (m, low, high, at) = (m, omega arith, omega arith, at)
  Sibling-if k e false ne absent h = λ st. h (Stands-suc k e ne st)
  Sibling-if k e false ne beyond h = omega arith

  Sibling-elem :
      (o : Option ℕ)
      → get_elem? sib j ≡ o
      → (rest : Search) → Sibling cpu sib (suc j) left rest
      → Sibling cpu sib j
          (suc left)
          (elim o [ none ↦ beyond | some k ↦ if cpu == k then found else rest ])
  Sibling-elem none e rest h = omega (arith, length-get_elem? sib j e)
  Sibling-elem (some k) e rest h = Sibling-if k e (cpu == k) refl rest h

sibling_loop-Sibling :
    (cpu : ℕ) (sib : List ℕ) (left j : ℕ) → Sibling cpu sib j left (sibling_loop cpu sib j left)
unfolding sibling_loop
sibling_loop-Sibling cpu sib zero j = λ (m, low, high, at). omega arith
sibling_loop-Sibling cpu sib (suc left) j =
    Sibling-elem cpu sib j left (get_elem? sib j) refl _ (sibling_loop-Sibling cpu sib left (suc j))

-- One of the packages from `i` on, `left` of them, lists the processor and has the id.
abbrev pub Lists : ℕ → List Package → ℕ → ℕ → ℕ → Type 0
Lists cpu pk i left id =
    (m : ℕ) × (i ≤ m)
    × (m < i + left)
    × (p : Package) × (get_elem? pk m ≡ some p)
    × Stands cpu p.sib 0 p.nsiblings
    × (id ≡ p.id)

-- Every package counts the siblings that are given.
abbrev pub Counted : List Package → Type 0
Counted pk = (m : ℕ) (p : Package) → get_elem? pk m ≡ some p → p.nsiblings ≤ length p.sib

-- What the value says of the packages.
abbrev pub Answers : ℕ → List Package → ℕ → ℕ → Pkid → Type 0
Answers cpu pk i left (pkid id) = Lists cpu pk i left id
Answers cpu pk i left minus_one = (id : ℕ) → ¬ Lists cpu pk i left id
Answers cpu pk i left overrun = length pk < i + left

module _ (cpu : ℕ) (pk : List Package) (counted : Counted pk) (i left : ℕ) where
  Answers-suc :
      (p : Package)
      → get_elem? pk i ≡ some p
      → ¬ Stands cpu p.sib 0 p.nsiblings
      → (id : ℕ) → Lists cpu pk i (suc left) id
      → Lists cpu pk (suc i) left id
  Answers-suc p e none_here id (m, low, high, p', at, st, same) = elim (dec_lt i m) [
    | yes after ↦ (m, omega arith, omega arith, p', at, st, same)
    | no here ↦
        let eq : m ≡ i = omega arith in
        let one : some p' ≡ some p = sym at ∙ ap (λ (x : ℕ). get_elem? pk x) eq ∙ e in
        let same_package : p' ≡ p = cc one in
        let st' : Stands cpu p.sib 0 p.nsiblings = rw (← same_package) st in absurd (none_here st')
  ]

  Answers-search :
      (p : Package)
      → get_elem? pk i ≡ some p
      → (r : Search) → Sibling cpu p.sib 0 p.nsiblings r
      → (rest : Pkid) → Answers cpu pk (suc i) left rest
      → Answers cpu pk i
          (suc left)
          (elim r [ found ↦ pkid p.id | absent ↦ rest | beyond ↦ overrun ])
  Answers-search p e found st rest h = (i, omega arith, omega arith, p, e, st, refl)
  Answers-search p e absent st (pkid id) (m, low, high, p', at, st', same) =
      (m, omega arith, omega arith, p', at, st', same)
  Answers-search p e absent st minus_one h = λ id l. h id (Answers-suc p e st id l)
  Answers-search p e absent st overrun h = omega arith
  Answers-search p e beyond st rest h = absurd (omega (arith, counted i p e, st))

  Answers-elem :
      (o : Option Package)
      → get_elem? pk i ≡ o
      → (rest : Pkid) → Answers cpu pk (suc i) left rest
      → Answers cpu pk i (suc left) (elim o [
        | none ↦ overrun
        | some p ↦ elim (sibling_loop cpu p.sib 0 p.nsiblings) [
          | found ↦ pkid p.id
          | absent ↦ rest
          | beyond ↦ overrun
        ]
      ])
  Answers-elem none e rest h = omega (arith, length-get_elem? pk i e)
  Answers-elem (some p) e rest h =
      Answers-search p e _ (sibling_loop-Sibling cpu p.sib p.nsiblings 0) rest h

package_loop-Answers :
    (cpu : ℕ) (pk : List Package)
    → Counted pk
    → (left i : ℕ) → Answers cpu pk i left (package_loop cpu pk i left)
unfolding package_loop
package_loop-Answers cpu pk counted zero i = λ id (m, low, high, p, at, st, same). omega arith
package_loop-Answers cpu pk counted (suc left) i =
    Answers-elem cpu pk counted i left (get_elem? pk i) refl _
      (package_loop-Answers cpu pk counted left (suc i))

-- Where the packages count the siblings given, `get_pkid` returns an id only of a package that
-- lists the processor, -1 only if none does, and overruns only if there are fewer packages than
-- counted.
pub get_pkid-Answers :
    (cpu : ℕ) (c : Cpus) → Counted c.pk → Answers cpu c.pk 0 c.npackages (get_pkid cpu c)
get_pkid-Answers cpu c counted = package_loop-Answers cpu c.pk counted c.npackages 0

-- On each machine `get_pkid` finds a package for the processors below NUM_CPUS and returns -1 for
-- all others.
pub get_pkid-num_cpus :
    (m : Machine) (cpu : ℕ) → ltb cpu (num_cpus m) ≡ not (is_minus_one (get_pkid cpu (cpus m)))
unfolding num_cpus sibling_loop package_loop
get_pkid-num_cpus m cpu = ground arith
