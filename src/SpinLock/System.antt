-- ===== src/SpinLock/System.antt =====
-- `n` threads that run one code over one spin variable, an instruction at a time in any order.
use htsynch.Base.{ℕ, ◌<◌, ◌≡◌, List, some, update}
use htsynch.Asm.{Instr, Local, entry, step}

-- An index from `n` on names no thread.
pub record System : Type 0 where
  pub word : ℕ
  pub threads : ℕ → Local

abbrev pub init : ℕ → System
init w = record { word = w; threads = λ _. entry }

pub data Step (kernel : ℕ → ℕ) (code : List Instr) (n : ℕ) (s : System) : System → Type 0 where
  turn :
      (i : ℕ) {w : ℕ} {l : Local}
      → i < n
      → step kernel code s.word (s.threads i) ≡ some (w, l)
      → Step kernel code n s (record { word = w; threads = update s.threads i l })

pub data Reach (kernel : ℕ → ℕ) (code : List Instr) (n w : ℕ) : System → Type 0 where
  start : Reach kernel code n w (init w)
  later :
      {s t : System} → Reach kernel code n w s → Step kernel code n s t → Reach kernel code n w t
