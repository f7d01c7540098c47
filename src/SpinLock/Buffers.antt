-- ===== src/SpinLock/Buffers.antt =====
-- The threads of SpinLock/System on a processor with store buffers: a plain store waits in the
-- buffer of its thread until it reaches memory, its own thread sees it before, and a locked
-- instruction runs only with an empty buffer. Loads and stores are not reordered otherwise.
use htsynch.Base.{ℕ, suc, ◌<◌, ◌≡◌, Bool, true, false, List, [], ◌∷◌, ◌++◌, some, get_elem?, update}
use htsynch.Asm.{Instr, Local, entry, exec, lock_decl, xchgl, movl}

-- Neither a store of the operand nor locked; `xchgl` with memory is locked without the prefix.
abbrev pub is_plain : Instr → Bool
is_plain lock_decl = false
is_plain xchgl = false
is_plain (movl k) = false
is_plain _ = true

abbrev pub is_locked : Instr → Bool
is_locked lock_decl = true
is_locked xchgl = true
is_locked _ = false

-- The buffer has the oldest store first.
pub record Thread : Type 0 where
  pub local : Local
  pub buffer : List ℕ

pub record Machine : Type 0 where
  pub memory : ℕ
  pub threads : ℕ → Thread

-- What a thread reads.
abbrev pub view : ℕ → List ℕ → ℕ
view w [] = w
view w (k ∷ ks) = view k ks

abbrev pub init : ℕ → Machine
init w = record { memory = w; threads = λ _. record { local = entry; buffer = [] } }

abbrev pub put : ℕ → Thread → ℕ → Machine → Machine
put i t w m = record { memory = w; threads = update m.threads i t }

abbrev pub plain_after : (ℕ → ℕ) → Instr → ℕ → Thread → Thread
plain_after kernel c w t = record t { local = (exec kernel c (view w t.buffer) t.local).1 }

abbrev pub store_after : ℕ → Thread → Thread
store_after k t = record {
  local = record t.local { pc = suc t.local.pc };
  buffer = t.buffer ++ k ∷ [];
}

abbrev pub locked_after : (ℕ → ℕ) → Instr → ℕ → Thread → Thread
locked_after kernel c w t = record t { local = (exec kernel c w t.local).1 }

pub data Step (kernel : ℕ → ℕ) (code : List Instr) (n : ℕ) (m : Machine) : Machine → Type 0 where
  plain :
      (i : ℕ) (c : Instr)
      → i < n
      → get_elem? code (m.threads i).local.pc ≡ some c
      → is_plain c ≡ true
      → Step kernel code n m (put i (plain_after kernel c m.memory (m.threads i)) m.memory m)
  store :
      (i k : ℕ)
      → i < n
      → get_elem? code (m.threads i).local.pc ≡ some (movl k)
      → Step kernel code n m (put i (store_after k (m.threads i)) m.memory m)
  locked :
      (i : ℕ) (c : Instr)
      → i < n
      → get_elem? code (m.threads i).local.pc ≡ some c
      → is_locked c ≡ true
      → (m.threads i).buffer ≡ []
      → Step kernel code n m (
          put i
            (locked_after kernel c m.memory (m.threads i))
            (exec kernel c m.memory (m.threads i).local).0
            m)
  drain :
      (i k : ℕ) (ks : List ℕ)
      → i < n
      → (m.threads i).buffer ≡ k ∷ ks
      → Step kernel code n m (put i (record (m.threads i) { buffer = ks }) k m)

pub data Reach (kernel : ℕ → ℕ) (code : List Instr) (n w : ℕ) : Machine → Type 0 where
  start : Reach kernel code n w (init w)
  later :
      {m m' : Machine}
      → Reach kernel code n w m
      → Step kernel code n m m'
      → Reach kernel code n w m'
