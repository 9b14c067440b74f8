-- ===== src/Scan.antt =====
-- src/monitoring_services_core.c: one scan of /proc, `scan_processes`. Its environment is a set of
-- parameters: `collect pid` is `process_collect` (`none` on failure), `now pid` is the time at which
-- the metrics of the PID are computed, and `list_room` and `previous_room` say whether `realloc` to a
-- number of items succeeds for the list and for the previous samples.
pub mod Baseline
pub mod Shown
mod Tests
use application_monitoring.Prelude.{
  ℕ, ℤ, Bool, true, false, not, ◌&&◌, List, [], ◌∷◌, Option, none, some, if◌then◌else◌,
}
use application_monitoring.Text.{Bytes}
use application_monitoring.Double.{Double}
use application_monitoring.Types.{
  NeoConfig, NeoProcess, NeoProcessList, NeoPreviousSample, NeoSystemInfo,
}
use application_monitoring.Filter.{process_matches}
use application_monitoring.Processes.{process_list_init, process_list_add, previous_set}
use application_monitoring.Processes.Previous.{previous_sample}
use application_monitoring.Metrics.{update_metrics}
use application_monitoring.Pids.{parse_pid_path}

-- What a scan leaves in its two lists, and whether it returns 0.
pub record ScanResult (D : Type 0) : Type 0 where
  pub list : NeoProcessList D
  pub previous : List NeoPreviousSample
  pub ok : Bool

module _ {D : Type 0} (config : NeoConfig D) (collect : ℤ → Option (NeoProcess D)) where
  -- The three guards of the loop: the process that an entry of /proc stands for, if it is
  -- monitored.
  unfoldable pub candidate : Bytes → Option (NeoProcess D)
  candidate name = elim (parse_pid_path name) [
    | none ↦ none
    | some pid ↦ elim (collect pid) [
      | none ↦ none
      | some process ↦ if not (process_matches config process) then none else some process
    ]
  ]

module _ {D : Type 0} (F : Double D) (config : NeoConfig D) where
  -- The three tests of the thresholds.
  unfoldable pub below_threshold : NeoProcess D → Bool
  below_threshold process =
      if F.lt (F.ratio 0 1) config.cpu_threshold && F.lt process.cpu_percent config.cpu_threshold
      then true
      else if F.lt (F.ratio 0 1) config.ram_threshold_mb
          && F.lt process.rss_mb config.ram_threshold_mb
      then true
      else if F.lt (F.ratio 0 1) config.ram_threshold_percent
          && F.lt process.mem_percent config.ram_threshold_percent
      then true
      else false

  module _ (system : NeoSystemInfo) (interval : D) (now : ℤ → ℤ) (ticks : ℤ) where
    -- The metrics of a process that is monitored, against its previous sample.
    unfoldable pub measured : List NeoPreviousSample → NeoProcess D → NeoProcess D
    measured previous process =
        update_metrics F (now process.pid) ticks process (previous_sample previous process.pid)
          (some system) interval

    module _ (list_room previous_room : ℕ → Bool) where
      -- The update of the baseline.
      set_baseline : NeoProcessList D → List NeoPreviousSample → NeoProcess D → ScanResult D
      unfolding previous_set
      set_baseline list previous process = elim (previous_set previous_room previous process) [
        | none ↦ record { list = list; previous = previous; ok = false }
        | some previous' ↦ record { list = list; previous = previous'; ok = true }
      ]

      -- The body of the loop from the search for the previous sample on.
      scan_process : NeoProcessList D → List NeoPreviousSample → NeoProcess D → ScanResult D
      unfolding set_baseline below_threshold process_list_add
      scan_process list previous process =
          let next = measured previous process in
          elim (below_threshold next) [
            | true ↦ set_baseline list previous next
            | false ↦ elim (process_list_add list_room list next) [
              | none ↦ record { list = list; previous = previous; ok = false }
              | some list' ↦ set_baseline list' previous next
            ]
          ]

      module _ (collect : ℤ → Option (NeoProcess D)) where
        scan_loop : NeoProcessList D → List NeoPreviousSample → List Bytes → ScanResult D
        scan_loop list previous [] = record { list = list; previous = previous; ok = true }
        scan_loop list previous (name ∷ names) = elim (candidate config collect name) [
          | none ↦ scan_loop list previous names
          | some process ↦ elim (scan_process list previous process).ok [
            | false ↦ scan_process list previous process
            | true ↦
                scan_loop (scan_process list previous process).list
                  (scan_process list previous process).previous names
          ]
        ]

        -- `entries` are the names that `readdir` gives, and `none` if `opendir` fails. The list is freed
        -- and initialised first.
        unfoldable pub scan_processes :
            NeoProcessList D → List NeoPreviousSample → Option (List Bytes) → ScanResult D
        unfolding scan_loop scan_process
        scan_processes list previous none = record {
          list = process_list_init;
          previous = previous;
          ok = false;
        }
        scan_processes list previous (some names) = scan_loop process_list_init previous names
