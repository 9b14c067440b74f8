-- ===== src/Main/Cooked.antt =====
-- The terminal after the local monitor.
use application_monitoring.Prelude.{
  ℕ, ◌≡◌, refl, ◌∙◌, ap, Bool, true, false, not, ◌&&◌, ◌||◌, List, [], ◌∷◌, if◌then◌else◌,
  Bool-cases, inl, inr, arith,
}
use application_monitoring.Double.{Double}
use application_monitoring.Types.{NeoConfig, NeoProcess}
use application_monitoring.Capture.{CpuState, capture_read_system}
use application_monitoring.Alert.{alert_evaluate}
use application_monitoring.Sort.{Qsort}
use application_monitoring.Ui.{Tty, TerminalState, ui_setup, ui_restore, ui_handle_key}
use application_monitoring.Ui.RawMode.{setups, ui_restore-setups}
use application_monitoring.Main.Local.{
  Round, Monitor, ends, exit_code, restored, scanned, sorted, raise_alerts, report, finish_pass,
  monitor_pass, monitor_loop, is_interactive, alerts_on, monitor_start, run_local_monitor,
}
use application_monitoring.Main.Passes.{
  Passes, Passes-if, Passes-option, Ending, Ending-ends, Ending-map, monitor_loop-Ending,
}

ui_setup-false :
    (tty : Tty) (s : TerminalState)
    → s.terminal_configured ≡ false
    → (ui_setup tty s).1 ≡ false
    → ((ui_setup tty s).0.attributes ≡ s.attributes)
      × ((ui_setup tty s).0.terminal_configured ≡ false)
unfolding ui_setup
ui_setup-false tty s off failed = ground (arith, off, failed)

module _ {D : Type 0} (F : Double D) (qsort : Qsort (NeoProcess D)) (tty : Tty)
    (alerting_enabled interactive : Bool) (terminal : TerminalState) where
  -- The terminal is as it was set up.
  abbrev Same : Monitor D → Type 0
  Same m = m.terminal ≡ terminal

  -- The terminal is as it was restored.
  abbrev pub Restored : ℕ → Monitor D → Type 0
  Restored code m = m.terminal ≡ (if interactive then ui_restore tty terminal else terminal)

  restored-Restored :
      (m : Monitor D)
      → Same m
      → Restored (exit_code m) (restored F qsort tty alerting_enabled interactive interactive m)
  unfolding restored
  restored-Restored m h = elim (Bool-cases interactive) [
    | inl e ↦ rw e (ap (ui_restore tty) h)
    | inr e ↦ rw e h
  ]

  raise_alerts-Same :
      (r : Round D) (m : Monitor D)
      → Same m
      → Same (raise_alerts F qsort tty alerting_enabled interactive interactive r m)
  unfolding raise_alerts
  raise_alerts-Same r m h =
      let (cpu, cpu_percent, mem_percent, swap_percent) =
        capture_read_system F r.times r.memory m.cpu in
      let fired =
        (alert_evaluate F m.config r.cpu_now r.mem_now m.alert_state cpu_percent mem_percent).1 in
      elim (Bool-cases alerting_enabled) [
        | inr off ↦ rw off h
        | inl on ↦ elim (Bool-cases (fired.cpu || fired.mem)) [
          | inr quiet ↦ rw (on, quiet) h
          | inl loud ↦ rw (on, loud) h
        ]
      ]

  finish_pass-Same :
      (r : Round D) (m : Monitor D)
      → Same m
      → Passes Same Restored (finish_pass F qsort tty alerting_enabled interactive interactive r m)
  unfolding finish_pass
  finish_pass-Same r m h =
      Passes-if _ _ m.config.once _ _ (λ once. restored-Restored m h)
        (λ more.
          Passes-if _ _ (m.config.batch && not interactive) _ _
            (λ batch. let plain : interactive ≡ false = ground (arith, batch) in rw plain h)
            (λ looping.
              Passes-if _ _ interactive _ _
                (λ keys. Passes-option _ _ r.key _ _ h (λ key pressed.
                  Passes-if _ _ (not (ui_handle_key F m.config key).go_on) _ _ (λ quit. h)
                    (λ stay.
                      Passes-if _ _ (ui_handle_key F m.config key).force_refresh _ _ (λ now. h)
                        (λ later. h))))
                (λ unattended. h)))

  monitor_pass-Same :
      (r : Round D) (m : Monitor D)
      → Same m
      → Passes Same Restored (monitor_pass F qsort tty alerting_enabled interactive interactive r m)
  unfolding monitor_pass report
  monitor_pass-Same r m h = Passes-option _ _ r.system _ _ h (λ system read.
      let s = scanned F qsort tty alerting_enabled interactive interactive r system m in
      Passes-if _ _ (not s.ok) _ _ (λ failed. h)
        (λ done.
          let ordered = sorted F qsort tty alerting_enabled interactive interactive s m in
          finish_pass-Same r
            (report F qsort tty alerting_enabled interactive interactive r system ordered)
            (raise_alerts-Same r ordered h)))

  pub monitor_loop-Restored :
      (rounds : List (Round D)) (m : Monitor D)
      → Same m
      → Ending Restored (monitor_loop F qsort tty alerting_enabled interactive interactive rounds m)
  monitor_loop-Restored =
      monitor_loop-Ending F qsort tty alerting_enabled interactive interactive Same Restored
        monitor_pass-Same restored-Restored

module _ {D : Type 0} (F : Double D) (qsort : Qsort (NeoProcess D)) (tty : Tty) where
  -- The attributes are back, and the terminal counts as not set up.
  abbrev pub IsCooked : TerminalState → ℕ → Monitor D → Type 0
  IsCooked terminal code m =
      (m.terminal.attributes ≡ terminal.attributes) × (m.terminal.terminal_configured ≡ false)

  -- Whenever the local monitor comes to an end, however it does and with whatever exit code, the terminal
  -- has the attributes that it had at the start; given that it was not set up before, and that
  -- `tcsetattr` succeeds.
  pub run_local_monitor-IsCooked :
      (config : NeoConfig D) (cpu : CpuState) (terminal : TerminalState) (rounds : List (Round D))
      {code : ℕ} {m : Monitor D}
      → terminal.terminal_configured ≡ false
      → tty.tcsetattr_ok ≡ true
      → run_local_monitor F qsort tty config cpu terminal rounds ≡ ends code m
      → IsCooked terminal code m
  unfolding run_local_monitor setups
  run_local_monitor-IsCooked config cpu terminal rounds off works e =
      Ending-ends (IsCooked terminal) _
        (elim (Bool-cases (is_interactive F qsort tty config)) [
          | inr plain ↦ rw plain (
              Ending-map _ (IsCooked terminal) _
                (λ code m h. (ap (λ t. t.attributes) h, ap (λ t. t.terminal_configured) h ∙ off))
                (monitor_loop-Restored F qsort tty (alerts_on F qsort tty config) false terminal
                  rounds (monitor_start F qsort tty config cpu terminal) refl))
          | inl keys ↦ elim (Bool-cases (ui_setup tty terminal).1) [
            | inl ready ↦
                rw (keys, ready)
                  (Ending-map _ (IsCooked terminal) _
                    (λ code m h.
                      let (attributes, released) =
                        ui_restore-setups (tty ∷ []) tty terminal off works in
                      (
                        ap (λ t. t.attributes) h ∙ attributes,
                        ap (λ t. t.terminal_configured) h ∙ released,
                      ))
                    (monitor_loop-Restored F qsort tty (alerts_on F qsort tty config) true
                      (ui_setup tty terminal).0 rounds
                      (monitor_start F qsort tty config cpu (ui_setup tty terminal).0) refl))
            | inr failed ↦ rw (keys, failed) (ui_setup-false tty terminal off failed)
          ]
        ])
        e
