-- ===== src/Demo/Device.antt =====
-- How the programs with the shared page come by it, and
-- kernel_monitor_user_notification_with_mmap/notify_memory.c. What `open` returns, here `opened`, and
-- `mmap` are parameters: a descriptor, or `none` for a negative result, and for a descriptor, a
-- length and an offset an address, or `none` for MAP_FAILED.
use htsynch.Base.{ℕ, zero, suc, ◌*◌, Option, none, some, update}
use htsynch.Monitor.Defs.{notified_val}

-- NPAGES
abbrev pub npages : ℕ
npages = 1

-- `none` if the process exits; `page` is what `getpagesize` returns.
abbrev pub map_device : Option ℕ → (ℕ → ℕ → ℕ → Option ℕ) → ℕ → Option ℕ
map_device opened mmap page = elim opened [
  | none ↦ none
  | some fd ↦ mmap fd (npages * page) (npages * page)
]

-- The loop with so many rounds left.
unfoldable pub notify_loop : ℕ → ℕ → (ℕ → ℕ) → ℕ → ℕ
notify_loop zero area memory = memory
notify_loop (suc left) area memory = notify_loop left area (update memory area notified_val)

-- `count` is `atoi(argv[1])`, 0 for a negative one; the result is the memory, `none` on an exit.
abbrev pub notify_memory : Option ℕ → (ℕ → ℕ → ℕ → Option ℕ) → ℕ → ℕ → (ℕ → ℕ) → Option (ℕ → ℕ)
notify_memory opened mmap page count memory = elim (map_device opened mmap page) [
  | none ↦ none
  | some area ↦ some (notify_loop count area memory)
]
