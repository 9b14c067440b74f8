-- ===== src/ProcessControl.antt =====
-- src/monitoring_process_control.c: signals and niceness. What the two system calls answer is an
-- argument (`some errno` for a failure); what is done is a list of effects, in order. The text of a
-- message is built by `vsnprintf` and is known here by what it reports.
pub mod Guards
mod Tests
use application_monitoring.Prelude.{
  ℕ, ℤ, pos, negsuc, Bool, true, false, List, [], ◌∷◌, Option, none, some, ◌||◌, leb_ℤ, ltb_ℤ, ◌==◌,
  eqb_ℤ, if◌then◌else◌,
}
use application_monitoring.Text.{Bytes, codes}
use application_monitoring.Types.{NeoLogLevel, log_error, log_info}

-- The numbers of <signal.h> on Linux.
unfoldable pub signal_name : ℤ → Bytes
signal_name signal_number =
    if eqb_ℤ signal_number (pos 15)
    then codes "SIGTERM"
    else if eqb_ℤ signal_number (pos 9)
    then codes "SIGKILL"
    else if eqb_ℤ signal_number (pos 2)
    then codes "SIGINT"
    else if eqb_ℤ signal_number (pos 1)
    then codes "SIGHUP"
    else if eqb_ℤ signal_number (pos 19)
    then codes "SIGSTOP"
    else if eqb_ℤ signal_number (pos 18)
    then codes "SIGCONT"
    else codes "signal"

pub data Report : Type 0 where
  invalid_pid : ℤ → Report
  refused_signal : Bytes → ℤ → Report
  failed_signal : Bytes → ℤ → ℕ → Report
  sent_signal : Bytes → ℤ → Report
  refused_renice : ℤ → Report
  invalid_niceness : ℤ → Report
  failed_renice : ℤ → ℤ → ℕ → Report
  reniced : ℤ → ℤ → Report

pub data Effect : Type 0 where
  kill : ℤ → ℤ → Effect
  setpriority : ℤ → ℤ → Effect
  set_message : Report → Effect
  log : NeoLogLevel → Report → Effect

-- The result is true for 0 and false for -1.
unfoldable pub process_send_signal : Option ℕ → ℤ → ℤ → List Effect × Bool
unfolding signal_name
process_send_signal answer pid signal_number =
    if leb_ℤ pid (pos 0)
    then (
      set_message (invalid_pid pid)
          ∷ log log_error (refused_signal (signal_name signal_number) pid)
          ∷ [],
      false,
    )
    else elim answer [
      | some saved_errno ↦
          let report = failed_signal (signal_name signal_number) pid saved_errno in
          (kill pid signal_number ∷ set_message report ∷ log log_error report ∷ [], false)
      | none ↦ (
        kill pid signal_number ∷ log log_info (sent_signal (signal_name signal_number) pid) ∷ [],
        true,
      )
    ]

-- `setpriority` fails if it returns nonzero and sets `errno`.
unfoldable pub process_renice : Option ℕ → ℤ → ℤ → List Effect × Bool
process_renice answer pid priority =
    if leb_ℤ pid (pos 0)
    then (set_message (invalid_pid pid) ∷ log log_error (refused_renice pid) ∷ [], false)
    else if ltb_ℤ priority (negsuc 19) || ltb_ℤ (pos 19) priority
    then (set_message (invalid_niceness priority) ∷ [], false)
    else elim answer [
      | some saved_errno ↦
          let report = failed_renice pid priority saved_errno in
          (setpriority pid priority ∷ set_message report ∷ log log_error report ∷ [], false)
      | none ↦ (setpriority pid priority ∷ log log_info (reniced pid priority) ∷ [], true)
    ]
