-- ===== src/Main/Program.antt =====
-- src/monotoring_services.c: `main`, from the command line to the exit code.
use application_monitoring.Prelude.{
  ℕ, ℤ, suc, Bool, not, ◌&&◌, List, [], ◌∷◌, Option, if◌then◌else◌,
}
use application_monitoring.Text.{Bytes}
use application_monitoring.Double.{Double}
use application_monitoring.Types.{
  NeoConfig, NeoProcess, NeoProtocol, protocol_local, protocol_ssh, protocol_telnet, protocol_ftp,
  protocol_tftp, log_warn, log_info, log_debug,
}
use application_monitoring.Config.{config_init}
use application_monitoring.Alert.{log_alert, notify_desktop, post_webhook}
use application_monitoring.Capture.{cpu_start}
use application_monitoring.Log.{LogState, g_log, log_init, log_write, log_shutdown}
use application_monitoring.Sort.{Qsort}
use application_monitoring.Targets.{NeoTargetList}
use application_monitoring.Ui.{Tty, TerminalState}
use application_monitoring.Options.{Choice, Outcome, ok, failed, exits, Strtod}
use application_monitoring.Options.Resolve.{is_local, config_parse}
use application_monitoring.Remote.Commands.{RunCommand}
use application_monitoring.Main.{
  Event, json_output, csv_output, table_output, acted, logged, slept, wrote_csv, wrote_html,
  exit_failure,
}
use application_monitoring.Main.Local.{Round, Run, runs, ends, run_local_monitor}
use application_monitoring.Main.Remote.{
  RemoteRound, RemoteRun, remote_runs, remote_ends, remote_overruns, run_remote_monitor, run_deploy,
}
use application_monitoring.Main.Capturing.{
  CaptureRound, CaptureRun, capture_runs, capture_ends, run_capture_mode,
}

-- All that the environment of a run answers.
pub record World (D : Type 0) : Type 0 where
  -- the command line, as `getopt_long` gives it
  pub choices : List Choice
  pub arguments : List Bytes
  -- the file of targets, the accounts, and the memory that can be had
  pub load : Bytes → Option NeoTargetList
  pub save : NeoTargetList → Bool
  pub getpwnam : Bytes → Option ℕ
  pub copied : Bytes → Bool
  pub room : ℕ → Bool
  -- whether the log file opens, and whether the two calls of `sigaction` succeed
  pub opens : Bool
  pub sigint_set : Bool
  pub sigterm_set : Bool
  -- the rounds of each loop
  pub tty : Tty
  pub terminal : TerminalState
  pub rounds : List (Round D)
  pub remote_rounds : List RemoteRound
  pub capture_rounds : List (CaptureRound D)
  pub capture_start : ℤ
  pub stop_clock : ℤ
  pub writes : Bytes → Bool
  -- the upload
  pub run_command : RunCommand
  pub readable : Bytes → Bool
  -- the time of the n-th event, and the text that is logged for it
  pub stamp : ℕ → Event D → ℤ × Bytes
  -- whether the command of the n-th event, a notification or a post, succeeds
  pub succeeds : ℕ → Bool

-- A run that goes on, that has exited with a code and the log as it then is, or that was led out of bounds.
pub data Program (D : Type 0) : Type 0 where
  going : List (Event D) → Program D
  exited : ℕ → LogState → List (Event D) → Program D
  overrun : List (Event D) → Program D

module _ {D : Type 0} (F : Double D) (strtod : Bytes → Strtod D) (decimal : ℤ → Bytes)
    (qsort : Qsort (NeoProcess D)) (world : World D) where
  -- The log after an event.
  event_log : ℕ → Event D → LogState → LogState
  unfolding log_write
  event_log n (logged level message) log =
      let (now, text) = world.stamp n (logged level message) in (log_write now level text log).0
  event_log n (acted (log_alert metric)) log =
      let (now, text) = world.stamp n (acted (log_alert metric)) in
      (log_write now log_warn text log).0
  event_log n (acted (notify_desktop metric)) log =
      let (now, text) = world.stamp n (acted (notify_desktop metric)) in
      if world.succeeds n then log else (log_write now log_debug text log).0
  event_log n (acted (post_webhook metric url)) log =
      let (now, text) = world.stamp n (acted (post_webhook metric url)) in
      (log_write now (if world.succeeds n then log_info else log_warn) text log).0
  event_log n (json_output config system items) log = log
  event_log n (csv_output config items) log = log
  event_log n (table_output config system count items) log = log
  event_log n (slept seconds) log = log
  event_log n (wrote_csv path samples) log = log
  event_log n (wrote_html path samples) log = log

  unfoldable pub event_logs : ℕ → List (Event D) → LogState → LogState
  unfolding event_log
  event_logs n [] log = log
  event_logs n (event ∷ events) log = event_logs (suc n) events (event_log n event log)

  -- From the return of a mode on.
  unfoldable pub leave : LogState → ℕ → List (Event D) → Program D
  unfolding event_logs log_shutdown
  leave log code events = exited code (log_shutdown (event_logs 0 events log)) events

  unfoldable pub local_result : LogState → Run D → Program D
  unfolding leave
  local_result log (runs m) = going m.events
  local_result log (ends code m) = leave log code m.events

  unfoldable pub remote_result : LogState → RemoteRun D → Program D
  unfolding leave
  remote_result log (remote_runs events) = going events
  remote_result log (remote_ends code events) = leave log code events
  remote_result log (remote_overruns events) = overrun events

  unfoldable pub capture_result : LogState → CaptureRun D → Program D
  unfolding leave
  capture_result log (capture_runs c) = going c.events
  capture_result log (capture_ends code c) = leave log code c.events

  -- The switch over the protocol.
  unfoldable pub run_mode : NeoConfig D → LogState → NeoProtocol → Program D
  unfolding leave local_result remote_result capture_result run_remote_monitor run_deploy
      run_capture_mode run_local_monitor
  run_mode config log protocol_ssh =
      remote_result log (
        run_remote_monitor F (λ text. (strtod text).value) decimal qsort config world.remote_rounds)
  run_mode config log protocol_telnet =
      remote_result log (
        run_remote_monitor F (λ text. (strtod text).value) decimal qsort config world.remote_rounds)
  run_mode config log protocol_ftp =
      let (code, events) =
        run_deploy F (λ text. (strtod text).value) decimal qsort config world.run_command
          world.readable in
      leave log code events
  run_mode config log protocol_tftp =
      let (code, events) =
        run_deploy F (λ text. (strtod text).value) decimal qsort config world.run_command
          world.readable in
      leave log code events
  run_mode config log protocol_local =
      if config.capture_enabled
      then capture_result log (
          run_capture_mode F decimal qsort config world.capture_start world.stop_clock world.writes
            cpu_start world.capture_rounds)
      else local_result log
          (run_local_monitor F qsort world.tty config cpu_start world.terminal world.rounds)

  -- What follows a command line that is accepted.
  unfoldable pub after_parse : NeoConfig D → Program D
  unfolding run_mode log_init log_shutdown
  after_parse config =
      let (log, opened) = log_init world.opens config.log_file config.log_level g_log in
      if not opened
      then exited exit_failure log []
      else if not world.sigint_set
      then exited exit_failure (log_shutdown log) []
      else if not world.sigterm_set
      then exited exit_failure (log_shutdown log) []
      else if config.capture_enabled && not (is_local config.protocol)
      then exited exit_failure (log_shutdown log) []
      else run_mode config log config.protocol

  -- What follows `config_parse`.
  unfoldable pub after_outcome : Outcome (NeoConfig D × Option NeoTargetList) → Program D
  unfolding after_parse
  after_outcome failed = exited exit_failure g_log []
  after_outcome (exits code written) = exited code g_log []
  after_outcome (ok result) = after_parse result.0

  unfoldable pub main : Program D
  unfolding after_outcome config_parse
  main = after_outcome (
      config_parse F strtod world.copied world.room world.load world.save world.getpwnam
        (config_init F) world.choices world.arguments)
