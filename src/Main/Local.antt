-- ===== src/Main/Local.antt =====
-- src/monotoring_services.c: `run_local_monitor`.
use application_monitoring.Prelude.{
  ℕ, ℤ, Bool, true, false, not, ◌&&◌, ◌||◌, List, [], ◌∷◌, ◌++◌, Option, none, some, map,
  if◌then◌else◌,
}
use application_monitoring.Text.{Bytes}
use application_monitoring.Double.{Double}
use application_monitoring.Types.{
  NeoConfig, NeoProcess, NeoProcessList, NeoPreviousSample, NeoSystemInfo, log_error,
}
use application_monitoring.Processes.{process_list_init}
use application_monitoring.Scan.{ScanResult, scan_processes}
use application_monitoring.Sort.{Qsort, sort_processes}
use application_monitoring.Alert.{NeoAlertState, alert_state_init, alert_evaluate, alert_dispatch}
use application_monitoring.Capture.{CpuTimes, MemInfo, CpuState, capture_read_system}
use application_monitoring.Ui.{TerminalState, Tty, ui_setup, ui_restore, ui_handle_key}
use application_monitoring.Main.{
  Event, acted, logged, output, pause, refresh_system_failed, refresh_scan_failed, exit_success,
  exit_failure, neo_exit_alert,
}

-- What one pass of the loop reads.
pub record Round (D : Type 0) : Type 0 where
  pub running : Bool
  pub system : Option NeoSystemInfo
  -- the environment of `scan_processes`
  pub names : Option (List Bytes)
  pub collect : ℤ → Option (NeoProcess D)
  pub now : ℤ → ℤ
  pub ticks : ℤ
  pub list_room : ℕ → Bool
  pub previous_room : ℕ → Bool
  -- /proc/stat, /proc/meminfo, and the clock for the alerts
  pub times : Option CpuTimes
  pub memory : Option MemInfo
  pub cpu_now : ℤ
  pub mem_now : ℤ
  -- the result of `ui_wait`
  pub key : Option ℕ

-- The local variables, the terminal, and the static variables of `read_cpu_percent`.
pub record Monitor (D : Type 0) : Type 0 where
  pub config : NeoConfig D
  pub process_list : NeoProcessList D
  pub previous_list : List NeoPreviousSample
  pub alert_state : NeoAlertState
  pub alert_ever_fired : Bool
  pub interval : D
  pub cpu : CpuState
  pub terminal : TerminalState
  pub events : List (Event D)

-- How a pass ends: it goes on with the next one, leaves the loop, or returns from the function.
pub data Pass (D : Type 0) : Type 0 where
  continues : Monitor D → Pass D
  breaks : Monitor D → Pass D
  returns : ℕ → Monitor D → Pass D

-- A run that has not come to an end within its rounds, or that has returned a code.
pub data Run (D : Type 0) : Type 0 where
  runs : Monitor D → Run D
  ends : ℕ → Monitor D → Run D

module _ {D : Type 0} where
  abbrev pub happened : Monitor D → List (Event D) → Monitor D
  happened m events = record m { events = m.events ++ events }

  abbrev pub exit_code : Monitor D → ℕ
  exit_code m = if m.alert_ever_fired then neo_exit_alert else exit_success

module _ {D : Type 0} (F : Double D) (qsort : Qsort (NeoProcess D)) (tty : Tty)
    (alerting_enabled interactive ui_initialized : Bool) where
  -- if (ui_initialized) ...
  unfoldable pub restored : Monitor D → Monitor D
  unfolding ui_restore
  restored m = if ui_initialized then record m { terminal = ui_restore tty m.terminal } else m

  -- if (alerting_enabled) ...
  unfoldable pub raise_alerts : Round D → Monitor D → Monitor D
  unfolding capture_read_system alert_evaluate alert_dispatch
  raise_alerts r m =
      if alerting_enabled
      then (let (cpu, cpu_percent, mem_percent, swap_percent) =
            capture_read_system F r.times r.memory m.cpu in
          let (state, fired) =
            alert_evaluate F m.config r.cpu_now r.mem_now m.alert_state cpu_percent mem_percent in
          let evaluated : Monitor D = record m { cpu = cpu; alert_state = state } in
          if fired.cpu || fired.mem
          then happened (record evaluated { alert_ever_fired = true })
              (map acted (alert_dispatch m.config fired))
          else evaluated)
      else m

  -- From the test of `config->once` on.
  unfoldable pub finish_pass : Round D → Monitor D → Pass D
  unfolding restored ui_handle_key
  finish_pass r m =
      if m.config.once
      then returns (exit_code m) (restored m)
      else if m.config.batch && not interactive
      then returns (exit_code m) m
      else if interactive
      then elim r.key [
        | none ↦ continues (record m { interval = m.config.interval })
        | some key ↦
            let pressed = ui_handle_key F m.config key in
            if not pressed.go_on
            then breaks (record m { config = pressed.config })
            else if pressed.force_refresh
            then continues (record m { config = pressed.config })
            else continues
                (record m { config = pressed.config; interval = pressed.config.interval })
      ]
      else continues (record (happened m (pause F m.config ∷ [])) { interval = m.config.interval })

  -- What a scan leaves.
  unfoldable pub scanned : Round D → NeoSystemInfo → Monitor D → ScanResult D
  unfolding scan_processes
  scanned r system m =
      scan_processes F m.config system m.interval r.now r.ticks r.list_room r.previous_room
        r.collect m.process_list m.previous_list r.names

  -- The list in order.
  unfoldable pub sorted : ScanResult D → Monitor D → Monitor D
  unfolding sort_processes
  sorted s m = record m {
    process_list = record s.list {
      items = sort_processes F qsort s.list.items m.config.sort_mode m.config.reverse;
    };
    previous_list = s.previous;
  }

  -- The alerts and the output.
  unfoldable pub report : Round D → NeoSystemInfo → Monitor D → Monitor D
  unfolding raise_alerts
  report r system m =
      let raised = raise_alerts r m in
      happened raised (output raised.config system raised.process_list.items ∷ [])

  unfoldable pub monitor_pass : Round D → Monitor D → Pass D
  unfolding finish_pass scanned sorted report
  monitor_pass r m = elim r.system [
    | none ↦ breaks (happened m (logged log_error refresh_system_failed ∷ []))
    | some system ↦
        let s = scanned r system m in
        if not s.ok
        then breaks (
            happened (record m { process_list = s.list; previous_list = s.previous })
              (logged log_error refresh_scan_failed ∷ []))
        else finish_pass r (report r system (sorted s m))
  ]

  -- What a pass is followed by: the next ones, or the end of the function.
  unfoldable pub after : Pass D → (Monitor D → Run D) → Run D
  unfolding restored
  after (continues m) rest = rest m
  after (breaks m) rest = ends (exit_code m) (restored m)
  after (returns code m) rest = ends code m

  -- while (running), and what follows it.
  unfoldable pub monitor_loop : List (Round D) → Monitor D → Run D
  unfolding monitor_pass after
  monitor_loop [] m = runs m
  monitor_loop (r ∷ rounds) m = elim r.running [
    | false ↦ ends (exit_code m) (restored m)
    | true ↦ after (monitor_pass r m) (monitor_loop rounds)
  ]

module _ {D : Type 0} (F : Double D) (qsort : Qsort (NeoProcess D)) (tty : Tty) where
  abbrev pub is_interactive : NeoConfig D → Bool
  is_interactive config = tty.interactive && not config.batch && not config.csv && not config.json

  abbrev pub alerts_on : NeoConfig D → Bool
  alerts_on config =
      F.lt (F.ratio 0 1) config.alert_cpu_percent || F.lt (F.ratio 0 1) config.alert_mem_percent

  -- The state before the loop.
  abbrev pub monitor_start : NeoConfig D → CpuState → TerminalState → Monitor D
  monitor_start config cpu terminal = record {
    config = config;
    process_list = process_list_init;
    previous_list = [];
    alert_state = alert_state_init;
    alert_ever_fired = false;
    interval = config.interval;
    cpu = cpu;
    terminal = terminal;
    events = [];
  }

  unfoldable pub run_local_monitor : NeoConfig D → CpuState → TerminalState → List (Round D) → Run D
  unfolding ui_setup monitor_loop
  run_local_monitor config cpu terminal rounds =
      let interactive = is_interactive config in
      if interactive
      then (let (terminal', ready) = ui_setup tty terminal in
          if not ready
          then ends exit_failure (monitor_start config cpu terminal')
          else monitor_loop F qsort tty (alerts_on config) true true rounds
              (monitor_start config cpu terminal'))
      else monitor_loop F qsort tty (alerts_on config) false false rounds
          (monitor_start config cpu terminal)
