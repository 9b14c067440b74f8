-- ===== src/Main.antt =====
-- src/monotoring_services.c: the main program. The environment is a list of rounds: what one pass of a
-- loop reads, the flag `running` that the signal handler clears, and the key that is pressed. What a run
-- leaves to be seen is a list of events; the texts that `printf` writes besides are not modelled.
pub mod Alerted
pub mod Capturing
pub mod Closing
pub mod Cooked
pub mod Ends
pub mod Exits
pub mod Filters
pub mod Local
pub mod Passes
pub mod Program
pub mod Remote
pub mod Samples
pub mod Sifted
mod Tests
use application_monitoring.Prelude.{
  ℕ, ltb, length, take, ◌&&◌, ◌≡◌, Bool, true, false, List, [], ◌∷◌, ◌++◌, if◌then◌else◌,
}
use application_monitoring.Text.{Bytes}
use application_monitoring.Double.{Double}
use application_monitoring.Types.{NeoConfig, NeoProcess, NeoSystemInfo, NeoLogLevel}
use application_monitoring.Alert.{Action}
use application_monitoring.Capture.{NeoCaptureSample}

abbrev pub exit_success : ℕ
exit_success = 0

abbrev pub exit_failure : ℕ
exit_failure = 1

abbrev pub neo_exit_alert : ℕ
neo_exit_alert = 2

-- The format strings that are logged, with what they hold.
pub data Message : Type 0 where
  refresh_system_failed : Message
  refresh_scan_failed : Message
  remote_started : Message
  remote_failed : Bytes → Message
  deploy_started : Message
  deploy_failed : Bytes → Message
  deploy_finished : Message
  capture_started : Message
  capture_system_failed : Message
  capture_scan_failed : Message
  capture_stopped : ℕ → Message
  line : Bytes → Message

-- An output (with the rows that it prints, and for a table the number of processes in its first line), an
-- action for an alert, a line of the log, a pause in seconds, or the writing of a capture to the file at a
-- path.
pub data Event (D : Type 0) : Type 0 where
  json_output : NeoConfig D → NeoSystemInfo → List (NeoProcess D) → Event D
  csv_output : NeoConfig D → List (NeoProcess D) → Event D
  table_output : NeoConfig D → NeoSystemInfo → ℕ → List (NeoProcess D) → Event D
  acted : Action → Event D
  logged : NeoLogLevel → Message → Event D
  slept : ℕ → Event D
  wrote_csv : Bytes → List (NeoCaptureSample D) → Event D
  wrote_html : Bytes → List (NeoCaptureSample D) → Event D

-- A line that a function of src/monitoring_remote.c logs.
abbrev pub transcript : {D : Type 0} → NeoLogLevel × Bytes → Event D
transcript (level, text) = logged level (line text)

module _ {D : Type 0} where
  -- The first `count` items; a limit of 0 is no limit.
  abbrev pub printed : NeoConfig D → List (NeoProcess D) → List (NeoProcess D)
  printed config items =
      if ltb 0 config.limit && ltb config.limit (length items)
      then take config.limit items
      else items

  -- The ladder of the output formats.
  abbrev pub output : NeoConfig D → NeoSystemInfo → List (NeoProcess D) → Event D
  output config system items =
      if config.json
      then json_output config system (printed config items)
      else if config.csv
      then csv_output config (printed config items)
      else table_output config system (length items) (printed config items)

-- sleep((unsigned int)(config->interval > 1.0 ? config->interval : 1.0))
abbrev pub pause : {D : Type 0} → Double D → NeoConfig D → Event D
pause F config =
    slept (F.to_ℕ (if F.lt (F.ratio 1 1) config.interval then config.interval else F.ratio 1 1))
