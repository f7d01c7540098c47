-- ===== src/LockedBarrier/Defs.antt =====
-- `spin_barrier_t`, `spin_barrier_init` and `spin_barrier_lsense` of
-- kernel_monitor_user_notification_with_mmap/spin.c, and the macros SPIN_BARRIER_LSENSE... of
-- spin.h (here `macro_barrier_lsense...`). A thread makes one access to the shared fields a step;
-- the increment of the count, which has no lock prefix, is one step, as `counting_alone` justifies.
use htsynch.Base.{
  ℕ, ◌+◌, ◌-◌, ◌%◌, ◌^◌, ◌<◌, ◌==◌, leb, inc32, if◌then◌else◌, Bool, true, false, update,
}

pub record SpinBarrier : Type 0 where
  pub lock : ℕ
  pub release_flag : ℕ
  pub current_count : ℕ
  pub total : ℕ

-- `lock` and `release_flag` are of type `long`, the others of type `int`.
abbrev pub spin_barrier_init : ℕ → SpinBarrier
spin_barrier_init n = record { lock = 0; release_flag = 0; current_count = 0; total = n }

abbrev pub spin_barrier_init_lsense : ℕ
spin_barrier_init_lsense = 0

-- Where a thread stands: `try` and `spin` are in `spin_lock`, `count` is before the increment,
-- `compare` before the comparison, `reset` and `publish` before the two stores of the last thread,
-- `unlock` before `spin_unlock`, `waiting` before the first test of the waiting loop, `calling`
-- in the system call of its rounds and `looping` before the tests that end them.
pub data Pc : Type 0 where
  outside try spin count compare reset publish unlock waiting calling looping : Pc

-- `rounds` is the counter that SPIN_BARRIER_LSENSE_HLTCNT keeps. `arrived` and `left` count the
-- thread's increments and its returns; they are not in the source and nothing depends on them.
pub record Thread : Type 0 where
  pub pc : Pc
  pub lsense : ℕ
  pub rounds : ℕ
  pub arrived : ℕ
  pub left : ℕ

-- `~x` of an `int`
abbrev pub flip : ℕ → ℕ
flip x = 2 ^ 32 - 1 - x

-- An `int` stored as a `long`.
abbrev pub sign_extend : ℕ → ℕ
sign_extend x = if leb (2 ^ 31) x then x + (2 ^ 64 - 2 ^ 32) else x

abbrev goto : Pc → Thread → Thread
goto p t = record t { pc = p }

abbrev leave : Thread → Thread
leave t = record t { pc = Pc.outside; left = t.left + 1 }

-- `cmpl %1,%0` reads the low half of the flag.
abbrev pub released : SpinBarrier → Thread → Bool
released sb t = sb.release_flag % 2 ^ 32 == t.lsense

-- Where a round of the waiting loop begins, which is at its `ioctl` if it halts.
abbrev pub again : Bool → Pc
again true = Pc.calling
again false = Pc.looping

-- One step, from `outside` the start of the next call. `halts` says whether the waiting loop has an
-- `ioctl`, and `counts` whether it has an `incq`. The step from `calling` is the return of the call;
-- what the driver does until then is not in the source, and nothing says that it returns.
abbrev pub act_at : Bool → Bool → Pc → SpinBarrier → Thread → SpinBarrier × Thread
act_at halts counts Pc.outside sb t = (sb, record t { pc = Pc.try; lsense = flip t.lsense })
act_at halts counts Pc.try sb t =
    (record sb { lock = 1 }, goto (if sb.lock == 0 then Pc.count else Pc.spin) t)
act_at halts counts Pc.spin sb t = (sb, goto (if sb.lock == 0 then Pc.try else Pc.spin) t)
act_at halts counts Pc.count sb t = (
  record sb { current_count = inc32 sb.current_count },
  record t { pc = Pc.compare; arrived = t.arrived + 1 },
)
act_at halts counts Pc.compare sb t =
    (sb, goto (if sb.current_count == sb.total then Pc.reset else Pc.unlock) t)
act_at halts counts Pc.reset sb t = (record sb { current_count = 0 }, goto Pc.publish t)
act_at halts counts Pc.publish sb t =
    (record sb { release_flag = sign_extend t.lsense }, goto Pc.unlock t)
act_at halts counts Pc.unlock sb t = (record sb { lock = 0 }, goto Pc.waiting t)
act_at halts counts Pc.waiting sb t = (sb, if released sb t then leave t else goto (again halts) t)
act_at halts counts Pc.calling sb t = (sb, goto Pc.looping t)
act_at halts counts Pc.looping sb t =
    let t' = record t { rounds = if counts then (t.rounds + 1) % 2 ^ 64 else t.rounds } in
    (sb, if released sb t' then leave t' else goto (again halts) t')

-- The function of spin.c.
abbrev pub spin_barrier_lsense : SpinBarrier → Thread → SpinBarrier × Thread
spin_barrier_lsense sb t = act_at false false t.pc sb t

-- The macros of spin.h.
abbrev pub macro_barrier_lsense : SpinBarrier → Thread → SpinBarrier × Thread
macro_barrier_lsense sb t = act_at false false t.pc sb t

abbrev pub macro_barrier_lsense_hlt : SpinBarrier → Thread → SpinBarrier × Thread
macro_barrier_lsense_hlt sb t = act_at true false t.pc sb t

abbrev pub macro_barrier_lsense_hltcnt : SpinBarrier → Thread → SpinBarrier × Thread
macro_barrier_lsense_hltcnt sb t = act_at true true t.pc sb t

pub data Variant : Type 0 where
  function macro macro_hlt macro_hltcnt : Variant

unfoldable pub code : Variant → SpinBarrier → Thread → SpinBarrier × Thread
code function = spin_barrier_lsense
code macro = macro_barrier_lsense
code macro_hlt = macro_barrier_lsense_hlt
code macro_hltcnt = macro_barrier_lsense_hltcnt

-- The barrier and its threads; an index from `n` on names no thread.
pub record System : Type 0 where
  pub barrier : SpinBarrier
  pub threads : ℕ → Thread

abbrev pub init : ℕ → System
init n = record {
  barrier = spin_barrier_init n;
  threads = λ _. record {
    pc = Pc.outside;
    lsense = spin_barrier_init_lsense;
    rounds = 0;
    arrived = 0;
    left = 0;
  };
}

-- Thread `i` makes a step of the variant that it calls.
abbrev pub turn : Variant → System → ℕ → System
turn v s i =
    let r = code v s.barrier (s.threads i) in
    record { barrier = r.0; threads = update s.threads i r.1 }

-- What the interleavings of `n` threads lead to, each step of any thread being of any variant.
pub data Reach (n : ℕ) : System → Type 0 where
  start : Reach n (init n)
  later : {s : System} → Reach n s → (v : Variant) (i : ℕ) → i < n → Reach n (turn v s i)
