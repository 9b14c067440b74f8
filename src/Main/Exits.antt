-- ===== src/Main/Exits.antt =====
-- The exit code of the local monitor.
use application_monitoring.Prelude.{
  ℕ, ◌≡◌, ◌⊎◌, refl, Bool, true, false, not, ◌&&◌, ◌||◌, List, [], ◌∷◌, map, if◌then◌else◌,
  Bool-cases, inl, inr, arith,
}
use application_monitoring.Double.{Double}
use application_monitoring.Types.{NeoConfig, NeoProcess, log_error}
use application_monitoring.Alert.{alert_state_is_active, alert_evaluate, alert_dispatch}
use application_monitoring.Capture.{capture_read_system}
use application_monitoring.Sort.{Qsort}
use application_monitoring.Ui.{Tty, TerminalState, ui_setup, ui_handle_key}
use application_monitoring.Main.{
  acted, logged, output, pause, refresh_system_failed, refresh_scan_failed, exit_failure,
  exit_success, neo_exit_alert,
}
use application_monitoring.Main.Local.{
  Round, Monitor, exit_code, restored, scanned, sorted, raise_alerts, report, finish_pass,
  monitor_pass, monitor_loop, is_interactive,
}
use application_monitoring.Main.Passes.{
  Passes, Passes-if, Passes-option, Ending, monitor_loop-Ending,
}
use application_monitoring.Main.Alerted.{
  reported, alerted, failed, alerted-append, alerted-output, alerted-pause, alerted-dispatch, Told,
  CodeTold, happened-Told, exit_code-CodeTold, still_kept, alert_evaluate-reported,
}

module _ {D : Type 0} (F : Double D) (qsort : Qsort (NeoProcess D)) (tty : Tty)
    (alerting_enabled interactive ui_initialized : Bool) where
  raise_alerts-Told :
      (r : Round D) (m : Monitor D)
      → Told m
      → Told (raise_alerts F qsort tty alerting_enabled interactive ui_initialized r m)
  unfolding raise_alerts
  raise_alerts-Told r m (h, kept) =
      let (cpu, cpu_percent, mem_percent, swap_percent) =
        capture_read_system F r.times r.memory m.cpu in
      let fired =
        (alert_evaluate F m.config r.cpu_now r.mem_now m.alert_state cpu_percent mem_percent).1 in
      elim (Bool-cases alerting_enabled) [
        | inr off ↦ rw off (h, kept)
        | inl on ↦ elim (Bool-cases (fired.cpu || fired.mem)) [
          | inr quiet ↦
              rw (on, quiet)
                (
                  h,
                  still_kept F quiet kept (
                      alert_evaluate-reported F m.config r.cpu_now r.mem_now m.alert_state
                        cpu_percent mem_percent),
                )
          | inl loud ↦
              rw (on, loud)
                (
                  ground (
                    arith,
                    alerted-append m.events (map acted (alert_dispatch m.config fired)),
                    alerted-dispatch m.config fired loud,
                  ),
                  inr refl,
                )
        ]
      ]

  restored-CodeTold :
      (m : Monitor D)
      → Told m
      → CodeTold (exit_code m) (restored F qsort tty alerting_enabled interactive ui_initialized m)
  unfolding restored
  restored-CodeTold m h = elim (Bool-cases ui_initialized) [
    | inl e ↦ rw e (exit_code-CodeTold m h)
    | inr e ↦ rw e (exit_code-CodeTold m h)
  ]

  finish_pass-Told :
      (r : Round D) (m : Monitor D)
      → Told m
      → Passes Told CodeTold
          (finish_pass F qsort tty alerting_enabled interactive ui_initialized r m)
  unfolding finish_pass
  finish_pass-Told r m h =
      Passes-if _ _ m.config.once _ _ (λ once. restored-CodeTold m h)
        (λ more.
          Passes-if _ _ (m.config.batch && not interactive) _ _ (λ batch. exit_code-CodeTold m h)
            (λ looping.
              Passes-if _ _ interactive _ _
                (λ keys. Passes-option _ _ r.key _ _ h (λ key pressed.
                  Passes-if _ _ (not (ui_handle_key F m.config key).go_on) _ _ (λ quit. h)
                    (λ stay.
                      Passes-if _ _ (ui_handle_key F m.config key).force_refresh _ _ (λ now. h)
                        (λ later. h))))
                (λ unattended.
                  happened-Told m (pause F m.config ∷ []) (alerted-pause F m.config) h)))

  monitor_pass-Told :
      (r : Round D) (m : Monitor D)
      → Told m
      → Passes Told CodeTold
          (monitor_pass F qsort tty alerting_enabled interactive ui_initialized r m)
  unfolding monitor_pass report alerted
  monitor_pass-Told r m h =
      Passes-option _ _ r.system _ _
        (happened-Told m (logged log_error refresh_system_failed ∷ []) refl h)
        (λ system read.
          let s = scanned F qsort tty alerting_enabled interactive ui_initialized r system m in
          Passes-if _ _ (not s.ok) _ _
            (λ failed.
              happened-Told (record m { process_list = s.list; previous_list = s.previous })
                (logged log_error refresh_scan_failed ∷ []) refl h)
            (λ done.
              let ordered = sorted F qsort tty alerting_enabled interactive ui_initialized s m in
              let raised =
                raise_alerts F qsort tty alerting_enabled interactive ui_initialized r ordered in
              finish_pass-Told r
                (report F qsort tty alerting_enabled interactive ui_initialized r system ordered)
                (happened-Told raised (output raised.config system raised.process_list.items ∷ [])
                  (alerted-output raised.config system raised.process_list.items)
                  (raise_alerts-Told r ordered h))))

  pub monitor_loop-CodeTold :
      (rounds : List (Round D)) (m : Monitor D)
      → Told m
      → Ending CodeTold
          (monitor_loop F qsort tty alerting_enabled interactive ui_initialized rounds m)
  monitor_loop-CodeTold =
      monitor_loop-Ending F qsort tty alerting_enabled interactive ui_initialized Told CodeTold
        monitor_pass-Told restored-CodeTold

module _ {D : Type 0} (F : Double D) (qsort : Qsort (NeoProcess D)) (tty : Tty) where
  -- The code 1 means that the terminal was not set up.
  abbrev Coded : NeoConfig D → TerminalState → ℕ → Monitor D → Type 0
  Coded config terminal code m =
      if is_interactive F qsort tty config && not (ui_setup tty terminal).1
      then (code ≡ exit_failure) × (m.events ≡ [])
      else CodeTold code m

  -- Of a monitor whose terminal, if it wants one, is set up: the code 2 for an alert, and 0 if there was
  -- none and no threshold is exceeded in the end.
  abbrev pub Meaning : ℕ → Monitor D → Type 0
  Meaning code m =
      ((alerted m.events ≡ true) × (code ≡ neo_exit_alert))
      ⊎ ((alerted m.events ≡ false)
          × (reported m.alert_state ≡ false)
          × ((alert_state_is_active m.alert_state ≡ true) ⊎ (code ≡ exit_success)))

  abbrev pub Explained : NeoConfig D → TerminalState → ℕ → Monitor D → Type 0
  Explained config terminal code m =
      if is_interactive F qsort tty config && not (ui_setup tty terminal).1
      then (code ≡ exit_failure) × (m.events ≡ [])
      else Meaning code m
