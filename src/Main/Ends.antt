-- ===== src/Main/Ends.antt =====
-- When the local monitor comes to an end.
use application_monitoring.Prelude.{
  ◌≡◌, refl, ap, subst, Bool, true, false, not, ◌&&◌, ◌||◌, List, [], ◌∷◌, Option, none, some,
  if◌then◌else◌, Bool-cases, inl, inr, arith, Any, ◌==◌, ◌==◌,
}
use application_monitoring.Double.{Double}
use application_monitoring.Types.{NeoConfig, NeoProcess}
use application_monitoring.Capture.{CpuState, capture_read_system}
use application_monitoring.Alert.{alert_evaluate}
use application_monitoring.Sort.{Qsort}
use application_monitoring.Ui.{Tty, TerminalState, ui_setup, ui_handle_key}
use application_monitoring.Main.Local.{
  Round, Monitor, Pass, continues, breaks, returns, Run, runs, ends, scanned, sorted, raise_alerts,
  report, finish_pass, after, monitor_pass, monitor_loop, is_interactive, alerts_on, monitor_start,
  run_local_monitor,
}

module _ {D : Type 0} where
  -- Has the function returned?
  abbrev pub ended : Run D → Bool
  ended (runs m) = false
  ended (ends code m) = true

  -- Is this the last pass?
  abbrev final : Pass D → Bool
  final (continues m) = false
  final (breaks m) = true
  final (returns code m) = true

  final-if :
      (b : Bool) (p p' : Pass D)
      → (b ≡ true → final p ≡ true)
      → (b ≡ false → final p' ≡ true)
      → final (if b then p else p') ≡ true
  final-if true p p' h k = h refl
  final-if false p p' h k = k refl

  final-option :
      {A : Type 0} (m : Option A) (p : Pass D) (f : A → Pass D)
      → (m ≡ none → final p ≡ true)
      → ((a : A) → m ≡ some a → final (f a) ≡ true)
      → final (elim m [ none ↦ p | some a ↦ f a ]) ≡ true
  final-option none p f h k = h refl
  final-option (some a) p f h k = k a refl

  -- Is the key q pressed in this round?
  abbrev pub quits : Round D → Bool
  quits r = elim r.key [ none ↦ false | some key ↦ key == b'q' || key == b'Q' ]

  -- A signal came before this round, its read of the system fails, or the user quits in it.
  abbrev pub stops : Bool → Round D → Bool
  stops interactive r =
      not r.running || elim r.system [ none ↦ true | some system ↦ false ] || interactive && quits r

module _ {D : Type 0} (F : Double D) (qsort : Qsort (NeoProcess D)) (tty : Tty)
    (alerting_enabled interactive ui_initialized : Bool) where
  finish_pass-final :
      (r : Round D) (m : Monitor D)
      → m.config.once || m.config.batch && not interactive || interactive && quits r ≡ true
      → final (finish_pass F qsort tty alerting_enabled interactive ui_initialized r m) ≡ true
  unfolding finish_pass ui_handle_key
  finish_pass-final r m h = ground (arith, h)

  raise_alerts-config :
      (r : Round D) (m : Monitor D)
      → (raise_alerts F qsort tty alerting_enabled interactive ui_initialized r m).config ≡ m.config
  unfolding raise_alerts
  raise_alerts-config r m =
      let (cpu, cpu_percent, mem_percent, swap_percent) =
        capture_read_system F r.times r.memory m.cpu in
      let fired =
        (alert_evaluate F m.config r.cpu_now r.mem_now m.alert_state cpu_percent mem_percent).1 in
      elim (Bool-cases alerting_enabled) [
        | inr off ↦ rw off refl
        | inl on ↦ elim (Bool-cases (fired.cpu || fired.mem)) [
          | inr quiet ↦ rw (on, quiet) refl
          | inl loud ↦ rw (on, loud) refl
        ]
      ]

  monitor_pass-final :
      (r : Round D) (m : Monitor D)
      → m.config.once
          || m.config.batch && not interactive
          || elim r.system [ none ↦ true | some system ↦ false ]
          || interactive && quits r
        ≡ true
      → final (monitor_pass F qsort tty alerting_enabled interactive ui_initialized r m) ≡ true
  unfolding monitor_pass report sorted
  monitor_pass-final r m h =
      final-option r.system _ _ (λ unread. refl)
        (λ system read.
          let s = scanned F qsort tty alerting_enabled interactive ui_initialized r system m in
          let ordered = sorted F qsort tty alerting_enabled interactive ui_initialized s m in
          let reported =
            report F qsort tty alerting_enabled interactive ui_initialized r system ordered in
          let same : reported.config ≡ m.config = raise_alerts-config r ordered in
          final-if (not s.ok) _ _ (λ failed. refl)
            (λ done.
              finish_pass-final r reported
                (ground (arith, h, read, ap (λ c. c.once) same, ap (λ c. c.batch) same))))

  after-ended :
      (p : Pass D) (rest : Monitor D → Run D)
      → final p ≡ true
      → ended (after F qsort tty alerting_enabled interactive ui_initialized p rest) ≡ true
  unfolding after
  after-ended (continues m) rest h = cc
  after-ended (breaks m) rest h = refl
  after-ended (returns code m) rest h = refl

  after-later :
      (p : Pass D) (rest : Monitor D → Run D)
      → ((m : Monitor D) → ended (rest m) ≡ true)
      → ended (after F qsort tty alerting_enabled interactive ui_initialized p rest) ≡ true
  unfolding after
  after-later (continues m) rest h = h m
  after-later (breaks m) rest h = refl
  after-later (returns code m) rest h = refl

  monitor_loop-ended :
      (rounds : List (Round D)) (m : Monitor D)
      → Any (λ r. stops interactive r ≡ true) rounds
      → ended (monitor_loop F qsort tty alerting_enabled interactive ui_initialized rounds m) ≡ true
  unfolding monitor_loop
  monitor_loop-ended [] m h = absurd h
  monitor_loop-ended (r ∷ rounds) m h =
      let pass = monitor_pass F qsort tty alerting_enabled interactive ui_initialized r m in
      elim (Bool-cases r.running) [
        | inr stopped ↦ rw (monitor_loop, stopped) refl
        | inl running ↦
            rw (monitor_loop, running)
              (elim h [
                | inl now ↦
                    after-ended pass _ (monitor_pass-final r m (ground (arith, now, running)))
                | inr later ↦ after-later pass _ (λ m'. monitor_loop-ended rounds m' later)
              ])
      ]

  monitor_loop-once :
      (r : Round D) (rounds : List (Round D)) (m : Monitor D)
      → m.config.once || m.config.batch && not interactive ≡ true
      → ended (monitor_loop F qsort tty alerting_enabled interactive ui_initialized (r ∷ rounds) m)
        ≡ true
  unfolding monitor_loop
  monitor_loop-once r rounds m h = elim (Bool-cases r.running) [
    | inr stopped ↦ rw (monitor_loop, stopped) refl
    | inl running ↦
        rw (monitor_loop, running) (after-ended _ _ (monitor_pass-final r m (ground (arith, h))))
  ]

module _ {D : Type 0} (F : Double D) (qsort : Qsort (NeoProcess D)) (tty : Tty) where
  -- With --once or in batch mode, the local monitor comes to an end within its first round, whatever
  -- that reads.
  pub run_local_monitor-once :
      (config : NeoConfig D) (cpu : CpuState) (terminal : TerminalState) (r : Round D)
      (rounds : List (Round D))
      → config.once || config.batch ≡ true
      → ended (run_local_monitor F qsort tty config cpu terminal (r ∷ rounds)) ≡ true
  unfolding run_local_monitor
  run_local_monitor-once config cpu terminal r rounds h =
      let on = alerts_on F qsort tty config in
      let start = monitor_start F qsort tty config cpu in
      elim (Bool-cases (is_interactive F qsort tty config)) [
        | inr plain ↦ rw plain (
            monitor_loop-once F qsort tty on false false r rounds (start terminal)
              (ground (arith, h)))
        | inl keys ↦ elim (Bool-cases (ui_setup tty terminal).1) [
          | inl ready ↦
              rw (keys, ready)
                (monitor_loop-once F qsort tty on true true r rounds
                  (start (ui_setup tty terminal).0) (ground (arith, h, keys)))
          | inr failed ↦ rw (keys, failed) refl
        ]
      ]

  -- The local monitor comes to an end at the latest in the first round before which a signal came, in
  -- which the system cannot be read, or, where it is interactive, in which the user presses q.
  pub run_local_monitor-ended :
      (config : NeoConfig D) (cpu : CpuState) (terminal : TerminalState) (rounds : List (Round D))
      → Any (λ r. stops (is_interactive F qsort tty config) r ≡ true) rounds
      → ended (run_local_monitor F qsort tty config cpu terminal rounds) ≡ true
  unfolding run_local_monitor
  run_local_monitor-ended config cpu terminal rounds h =
      let on = alerts_on F qsort tty config in
      let start = monitor_start F qsort tty config cpu in
      elim (Bool-cases (is_interactive F qsort tty config)) [
        | inr plain ↦ rw plain (
            monitor_loop-ended F qsort tty on false false rounds (start terminal)
              (subst (λ b. Any (λ r. stops b r ≡ true) rounds) plain h))
        | inl keys ↦ elim (Bool-cases (ui_setup tty terminal).1) [
          | inl ready ↦
              rw (keys, ready)
                (monitor_loop-ended F qsort tty on true true rounds
                  (start (ui_setup tty terminal).0)
                  (subst (λ b. Any (λ r. stops b r ≡ true) rounds) keys h))
          | inr failed ↦ rw (keys, failed) refl
        ]
      ]
