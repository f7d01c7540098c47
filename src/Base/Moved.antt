-- ===== src/Base/Moved.antt =====
-- Threads over a shared state, of which one makes some steps: how the runs with store buffers are
-- related to those without.
use Prim.Native.Nat.{ℕ, ◌<◌}
use mathlib.Core.Path.{◌≡◌, refl, sym, ◌∙◌, subst}
use mathlib.Core.Logic.{ite, if_pos, if_neg, ◌≢◌}
use mathlib.Core.List.{List, [], ◌∷◌}
use native.Mathlib.Decide.{ℕ_discrete}
use htsynch.Base.Family.{update}

module _ {B T V : Type 0} (step : V → B → T → B × T) where
  -- The state and the thread after some steps of it.
  abbrev pub goes : List V → B → T → B × T
  goes [] b t = (b, t)
  goes (v ∷ vs) b t = let r = step v b t in goes vs r.0 r.1

-- Of the states of threads over a shared state some are reachable.
module _ {B T : Type 0} (Reaches : B → (ℕ → T) → Type 0) where
  -- A reachable state `b` in which thread `i` is at `t`, the others as in `f`.
  pub record Moved (f : ℕ → T) (i : ℕ) (b : B) (t : T) : Type 0 where
    pub threads : ℕ → T
    pub reached : Reaches b threads
    pub at_thread : threads i ≡ t
    pub others : (j : ℕ) → i ≢ j → threads j ≡ f j

  pub unmoved : (b : B) (f : ℕ → T) (i : ℕ) → Reaches b f → Moved f i b (f i)
  unmoved b f i r = record { threads = f; reached = r; at_thread = refl; others = λ j ne. refl }

  -- A step of the thread that has moved.
  pub Moved-move :
      (f : ℕ → T) (i : ℕ) (b b' : B) (t t' : T) (m : Moved f i b t)
      → Reaches b' (update m.threads i t')
      → Moved f i b' t'
  Moved-move f i b b' t t' m r = record {
    threads = update m.threads i t';
    reached = r;
    at_thread = if_pos (ℕ_discrete i i) refl t' (m.threads i);
    others = λ j ne. if_neg (ℕ_discrete i j) ne t' (m.threads j) ∙ m.others j ne;
  }

  -- What holds of each thread and the one it stands for holds after a move and an update.
  pub Moved-all :
      {U : Type 0} (R : ℕ → T → U → Type 0) (f : ℕ → T) (g : ℕ → U) (i : ℕ) (b : B) (t : T) (u : U)
      (m : Moved f i b t)
      → R i t u
      → ((j : ℕ) → i ≢ j → R j (f j) (g j))
      → (j : ℕ) → R j (m.threads j) (update g i u j)
  Moved-all R f g i b t u m here there j =
      elim (ℕ_discrete i j) as (λ d. R j (m.threads j) (ite d u (g j))) [
        | yes same ↦
            subst (λ k. R k (m.threads k) u) same (subst (λ x. R i x u) (sym m.at_thread) here)
        | no ne ↦ subst (λ x. R j x (g j)) (sym (m.others j ne)) (there j ne)
      ]

-- `step v b t` is a step of thread `t` of kind `v` with the state `b`; reachable states are closed
-- under the steps of the threads below `n`.
module _ {B T V : Type 0} (Reaches : B → (ℕ → T) → Type 0) (step : V → B → T → B × T) (n : ℕ)
    (closed : (b : B) (f : ℕ → T) (v : V) (i : ℕ)
      → i < n
      → Reaches b f
      → Reaches (step v b (f i)).0 (update f i (step v b (f i)).1)) where
  pub Moved-step :
      (f : ℕ → T) (i : ℕ) (b : B) (t : T) (v : V)
      → i < n
      → Moved Reaches f i b t
      → Moved Reaches f i (step v b t).0 (step v b t).1
  Moved-step f i b t v lt m = Moved-move Reaches f i b (step v b t).0 t (step v b t).1 m (
      subst (λ x. Reaches (step v b x).0 (update m.threads i (step v b x).1)) m.at_thread
        (closed b m.threads v i lt m.reached))

  pub Moved-goes :
      (vs : List V) (f : ℕ → T) (i : ℕ) (b : B) (t : T)
      → i < n
      → Moved Reaches f i b t
      → Moved Reaches f i (goes step vs b t).0 (goes step vs b t).1
  Moved-goes [] f i b t lt m = m
  Moved-goes (v ∷ vs) f i b t lt m =
      let r = step v b t in Moved-goes vs f i r.0 r.1 lt (Moved-step f i b t v lt m)
