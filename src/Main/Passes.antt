-- ===== src/Main/Passes.antt =====
-- What holds of the local monitor's loop, from what holds of its passes.
use application_monitoring.Prelude.{
  ℕ, ◌≡◌, refl, Bool, true, false, List, [], ◌∷◌, Option, none, some, if◌then◌else◌, Bool-cases,
  inl, inr, subst,
}
use application_monitoring.Double.{Double}
use application_monitoring.Types.{NeoProcess}
use application_monitoring.Sort.{Qsort}
use application_monitoring.Ui.{Tty}
use application_monitoring.Main.Local.{
  Round, Monitor, Pass, continues, breaks, returns, Run, runs, ends, exit_code, restored, after,
  monitor_pass, monitor_loop,
}

module _ {D : Type 0} (P : Monitor D → Type 0) (Q : ℕ → Monitor D → Type 0) where
  -- `P` after a pass that stays in the function, and `Q` where it returns.
  abbrev pub Passes : Pass D → Type 0
  Passes (continues m) = P m
  Passes (breaks m) = P m
  Passes (returns code m) = Q code m

  pub Passes-if :
      (b : Bool) (p p' : Pass D)
      → (b ≡ true → Passes p)
      → (b ≡ false → Passes p')
      → Passes (if b then p else p')
  Passes-if true p p' h k = h refl
  Passes-if false p p' h k = k refl

  pub Passes-option :
      {A : Type 0} (m : Option A) (p : Pass D) (f : A → Pass D)
      → Passes p
      → ((a : A) → m ≡ some a → Passes (f a))
      → Passes (elim m [ none ↦ p | some a ↦ f a ])
  Passes-option none p f h k = h
  Passes-option (some a) p f h k = k a refl

-- `Q` of a run that came to an end.
abbrev pub Ending : {D : Type 0} → (ℕ → Monitor D → Type 0) → Run D → Type 0
Ending Q (runs m) = Unit
Ending Q (ends code m) = Q code m

module _ {D : Type 0} (Q : ℕ → Monitor D → Type 0) where
  pub Ending-ends : (r : Run D) {code : ℕ} {m : Monitor D} → Ending Q r → r ≡ ends code m → Q code m
  Ending-ends (runs m') h e = cc
  Ending-ends (ends code' m') h e = subst (Ending Q) e h

pub Ending-map :
    {D : Type 0} (Q Q' : ℕ → Monitor D → Type 0) (r : Run D)
    → ((code : ℕ) (m : Monitor D) → Q code m → Q' code m)
    → Ending Q r
    → Ending Q' r
Ending-map Q Q' (runs m) f h = tt
Ending-map Q Q' (ends code m) f h = f code m h

module _ {D : Type 0} (F : Double D) (qsort : Qsort (NeoProcess D)) (tty : Tty)
    (alerting_enabled interactive ui_initialized : Bool) (P : Monitor D → Type 0)
    (Q : ℕ → Monitor D → Type 0)
    (passes : (r : Round D) (m : Monitor D)
      → P m
      → Passes P Q (monitor_pass F qsort tty alerting_enabled interactive ui_initialized r m))
    (leaves : (m : Monitor D)
      → P m
      → Q (exit_code m) (restored F qsort tty alerting_enabled interactive ui_initialized m)) where
  after-Ending :
      (p : Pass D) (rest : Monitor D → Run D)
      → Passes P Q p
      → ((m : Monitor D) → P m → Ending Q (rest m))
      → Ending Q (after F qsort tty alerting_enabled interactive ui_initialized p rest)
  unfolding after
  after-Ending (continues m) rest h k = k m h
  after-Ending (breaks m) rest h k = leaves m h
  after-Ending (returns code m) rest h k = h

  pub monitor_loop-Ending :
      (rounds : List (Round D)) (m : Monitor D)
      → P m
      → Ending Q (monitor_loop F qsort tty alerting_enabled interactive ui_initialized rounds m)
  unfolding monitor_loop
  monitor_loop-Ending [] m h = tt
  monitor_loop-Ending (r ∷ rounds) m h = elim (Bool-cases r.running) [
    | inr stopped ↦ rw (monitor_loop, stopped) (leaves m h)
    | inl running ↦
        rw (monitor_loop, running)
          (after-Ending (monitor_pass F qsort tty alerting_enabled interactive ui_initialized r m) _
            (passes r m h) (monitor_loop-Ending rounds))
  ]
