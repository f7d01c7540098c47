-- ===== src/Monitor/Defs.antt =====
-- kernel/cpu_controls.c, which mwmon-2.6.13.1-twopackages.patch adds: the loop of the system calls
-- `sys_mwmon_mmap_sleep`, `sys_mwmon_mmap_sleep2`, `sys_mwmon_user_sleep` and
-- `sys_mwmon_kernel_sleep`, which differ in the address they watch. MONITOR arms the processor for
-- the line that holds an address, a store to that line or an interrupt disarms it, and MWAIT
-- blocks while it is armed.
use htsynch.Base.{ℕ, ◌==◌, Bool, true, false, if◌then◌else◌, List, [], ◌∷◌}

abbrev pub monitored_mem_bytes : ℕ
monitored_mem_bytes = 64

-- 'a' and 'b'
abbrev pub original_val : ℕ
original_val = 97

abbrev pub notified_val : ℕ
notified_val = 98

-- Where the system call stands: before MONITOR, before the first test, at MWAIT, before the test
-- of the `while`, before the store of the original value, and after its return.
pub data Pc : Type 0 where
  arm check halt recheck reset done : Pc

-- The processor of the sleeping thread, and the byte it watches.
pub record Sleeper : Type 0 where
  pub pc : Pc
  pub armed : Bool
  pub byte : ℕ

abbrev sleep_at : Pc → Sleeper → Sleeper
sleep_at Pc.arm s = record s { pc = Pc.check; armed = true }
sleep_at Pc.check s = record s { pc = if s.byte == notified_val then Pc.reset else Pc.halt }
sleep_at Pc.halt s = if s.armed then s else record s { pc = Pc.recheck }
sleep_at Pc.recheck s = record s { pc = if s.byte == notified_val then Pc.reset else Pc.arm }
sleep_at Pc.reset s = record s { pc = Pc.done; armed = false; byte = original_val }
sleep_at Pc.done s = s

-- One step of the system call; at MWAIT an armed processor stays where it is.
unfoldable pub sys_mwmon_sleep : Sleeper → Sleeper
sys_mwmon_sleep s = sleep_at s.pc s

-- A store of another thread to the watched byte, as that of `sys_mwmon_kernel_notify` or of user
-- code through the mapping.
unfoldable pub notify : Sleeper → Sleeper
notify s = record s { armed = false; byte = notified_val }

-- An interrupt of the sleeping processor.
unfoldable pub interrupt : Sleeper → Sleeper
interrupt s = record s { armed = false }

pub data Event : Type 0 where
  run stored interrupted : Event

abbrev pub happens : Event → Sleeper → Sleeper
happens Event.run s = sys_mwmon_sleep s
happens Event.stored s = notify s
happens Event.interrupted s = interrupt s

-- What a sequence of events leads to, the first one first.
abbrev pub after : List Event → Sleeper → Sleeper
after [] s = s
after (e ∷ es) s = after es (happens e s)

-- The call begins with whatever stands in the watched byte.
abbrev pub begin : ℕ → Sleeper
begin b = record { pc = Pc.arm; armed = false; byte = b }
