-- ===== src/SpinLock/Exchange.antt =====
-- `spin_lock_cas` of mwait_barrier/synch.h and `spin_lock` of
-- kernel_monitor_user_notification_with_mmap/spin.c meet the lock interface, for any number of
-- threads. The two differ in which value means taken and which free.
use htsynch.Base.{
  ℕ, zero, suc, ◌+◌, ◌≤◌, ◌<◌, ◌≡◌, ◌≢◌, refl, Bool, true, List, [], ◌∷◌, some, arith, ◌||◌, ◌==◌,
  if◌then◌else◌,
}
use htsynch.Asm.{Instr, Local, step, movl_eax, xchgl, cmpl_eax, jne, jmp, pause, cmpl, movl}
use htsynch.SpinLock.Code.{client}
use htsynch.SpinLock.System.{System, Reach}
use htsynch.SpinLock.Invariant.{owner_unique}
use htsynch.SpinLock.Interface.{Discipline}

abbrev pub exchange : ℕ → ℕ → List Instr
exchange taken free =
    client
      (movl_eax taken
        ∷ xchgl
        ∷ cmpl_eax free
        ∷ jne 5
        ∷ jmp 9
        ∷ pause
        ∷ cmpl free
        ∷ jne 5
        ∷ jmp 0
        ∷ [])
      (movl free ∷ [])

record Word (taken free o k w : ℕ) : Type 0 where
  few : o ≤ 1
  open_word : o ≡ 0 → w ≡ free
  held_word : o ≡ 1 → w ≡ taken

-- The value for the exchange is in place.
abbrev FitsAt : ℕ → ℕ → ℕ → Type 0
FitsAt taken (suc zero) eax = eax ≡ taken
FitsAt taken _ eax = Unit

abbrev pub owns_at : ℕ → ℕ → ℕ → Bool → ℕ
owns_at free (suc (suc zero)) eax zf = if eax == free then 1 else 0
owns_at free (suc (suc (suc zero))) eax true = 1
owns_at free (suc (suc (suc (suc zero)))) eax zf = 1
owns_at free (suc (suc (suc (suc (suc (suc (suc (suc (suc zero))))))))) eax zf = 1
owns_at free (suc (suc (suc (suc (suc (suc (suc (suc (suc (suc zero)))))))))) eax zf = 1
owns_at free _ _ _ = 0

abbrev pub owns : ℕ → Local → ℕ
owns free l = owns_at free l.pc l.eax l.zf

pub owns_at-le : (free pc eax : ℕ) (zf : Bool) → owns_at free pc eax zf ≤ 1
owns_at-le free (suc (suc (suc (suc (suc (suc (suc (suc (suc (suc (suc zero))))))))))) eax zf =
    ground arith
owns_at-le free _ eax zf = ground arith

module _ (kernel : ℕ → ℕ) (taken free : ℕ) (ne : taken ≢ free) where
  step_at-Fits :
      (pc eax : ℕ) (zf sf less : Bool) (cnt w w' : ℕ) (l' : Local)
      → step kernel
          (exchange taken free)
          w
          (record { pc = pc; eax = eax; zf = zf; sf = sf; less = less; cnt = cnt })
        ≡ some (w', l')
      → FitsAt taken l'.pc l'.eax
  unfolding step
  step_at-Fits (suc (suc (suc (suc (suc (suc (suc (suc (suc (suc (suc zero))))))))))) eax zf sf less
        cnt w w' l' e =
      ground arith
  step_at-Fits _ eax zf sf less cnt w w' l' e = ground arith

  module _ (cnt w w' o o' k k' : ℕ) (l' : Local) where
    step_at :
        (pc eax : ℕ) (zf sf less : Bool)
        → step kernel
            (exchange taken free)
            w
            (record { pc = pc; eax = eax; zf = zf; sf = sf; less = less; cnt = cnt })
          ≡ some (w', l')
        → FitsAt taken pc eax
        → Word taken free o k w
        → owns_at free pc eax zf ≤ o
        → o' + owns_at free pc eax zf ≡ o + owns free l'
        → Word taken free o' k' w'
    unfolding step
    step_at (suc (suc (suc (suc (suc (suc (suc (suc (suc (suc (suc zero))))))))))) eax zf sf less e
          fits word p eo =
        ground arith
    step_at _ eax zf sf less e fits word p eo = ground arith

  discipline : ℕ → Discipline kernel (exchange taken free)
  discipline n = record {
    free = free;
    cap = n;
    owns = owns free;
    waits = λ _. 0;
    Fits = λ l. FitsAt taken l.pc l.eax;
    Word = Word taken free;
    owns-le = λ l. owns_at-le free l.pc l.eax l.zf;
    waits-le = λ _. omega arith;
    entry-Fits = tt;
    entry-owns = refl;
    free-Word = λ k. ground arith;
    Word-le = λ o k w h. h.few;
    step-Fits = λ l l' w w' e _. step_at-Fits l.pc l.eax l.zf l.sf l.less l.cnt w w' l' e;
    step-Word = λ l l' w w' o o' k k' e fits word p _ _ _ eo _.
        step_at l.cnt w w' o o' k k' l' l.pc l.eax l.zf l.sf l.less e fits word p eo;
  }

pub critical-owns : (free : ℕ) (l : Local) → (l.pc == 9 || l.pc == 10) ≡ true → owns free l ≡ 1
critical-owns free l h = ground arith

pub one_owner :
    (kernel : ℕ → ℕ) (taken free : ℕ)
    → taken ≢ free
    → (n : ℕ) (s : System) → Reach kernel (exchange taken free) n free s
    → (i j : ℕ) → i < n
    → j < n
    → owns free (s.threads i) ≡ 1
    → owns free (s.threads j) ≡ 1
    → i ≡ j
unfolding discipline
one_owner kernel taken free ne n s = owner_unique (discipline kernel taken free ne n) (omega arith)

pub excludes :
    (kernel : ℕ → ℕ) (taken free : ℕ)
    → taken ≢ free
    → (n : ℕ) (s : System) → Reach kernel (exchange taken free) n free s
    → (i j : ℕ) → i < n
    → j < n
    → ((s.threads i).pc == 9 || (s.threads i).pc == 10) ≡ true
    → ((s.threads j).pc == 9 || (s.threads j).pc == 10) ≡ true
    → i ≡ j
excludes kernel taken free ne n s r i j pi pj ci cj =
    one_owner kernel taken free ne n s r i j pi pj (critical-owns free (s.threads i) ci)
      (critical-owns free (s.threads j) cj)
