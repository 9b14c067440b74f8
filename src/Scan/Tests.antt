-- ===== src/Scan/Tests.antt =====
-- A scan of a /proc with two processes.
use application_monitoring.Prelude.{
  ℕ, ℤ, pos, ◌≡◌, refl, subst, sym, true, List, [], ◌∷◌, Option, none, some, eqb_ℤ, if◌then◌else◌,
  arith,
}
use application_monitoring.Text.{Bytes, codes}
use application_monitoring.Double.{milli}
use application_monitoring.Types.{NeoProcess, NeoPreviousSample, NeoSystemInfo, NeoConfig}
use application_monitoring.Examples.{start_config, process_of}
use application_monitoring.Processes.{sample_of, process_list_init}
use application_monitoring.Processes.Previous.{previous_sample}
use application_monitoring.Pids.{parse_pid_path}
use application_monitoring.Filter.{
  process_matches, filter_match_patterns, filter_match_excludes, filter_match_pid,
  filter_match_ppid, filter_match_user, filter_match_state,
}
use application_monitoring.Scan.{ScanResult, scan_processes, candidate}
use application_monitoring.Scan.Shown.{Distinct, baseline, candidates, shown}
use application_monitoring.Scan.Baseline.{scan_processes_lem}

abbrev machine : NeoSystemInfo
machine = record { total_cpu = 0; total_memory_kb = 8192; cpu_count = 2 }

abbrev busy_only : NeoConfig ℕ
busy_only = record start_config { cpu_threshold = 1000 }

-- The process 7 has used 50 ticks since its sample, and the process 9 is new.
abbrev collect : ℤ → Option (NeoProcess ℕ)
collect pid =
    if eqb_ℤ pid (pos 7)
    then some (process_of (pos 7) (codes "sh") 90)
    else if eqb_ℤ pid (pos 9)
    then some (process_of (pos 9) (codes "vi") 50)
    else none

abbrev names : List Bytes
names = codes "7" ∷ codes "self" ∷ codes "8" ∷ codes "9" ∷ []

abbrev samples : List NeoPreviousSample
samples = sample_of (process_of (pos 7) (codes "sh") 40) ∷ []

abbrev scanned : ScanResult ℕ
scanned =
    scan_processes milli busy_only machine 1000 (λ pid. pos 100) (pos 100) (λ n. true) (λ n. true)
      collect process_list_init samples (some names)

monitored :
    candidates busy_only collect names
    ≡ process_of (pos 7) (codes "sh") 90 ∷ process_of (pos 9) (codes "vi") 50 ∷ []
unfolding candidates candidate parse_pid_path process_matches filter_match_patterns
    filter_match_excludes filter_match_pid filter_match_ppid filter_match_user filter_match_state
monitored = refl

scan_processes_lem_example :
    (scanned.ok ≡ true)
    × (scanned.list.items
        ≡ shown milli busy_only machine 1000
            (λ pid. pos 100)
            (pos 100)
            samples
            (candidates busy_only collect names))
    × (previous_sample scanned.previous (pos 9)
        ≡ baseline samples (candidates busy_only collect names) (pos 9))
scan_processes_lem_example =
    scan_processes_lem milli busy_only machine 1000 (λ pid. pos 100) (pos 100) (λ n. true)
      (λ n. true) (λ n. refl) (λ n. refl) collect process_list_init samples names
      (subst Distinct (sym monitored) (((λ e. ground (arith, e)), tt), (tt, tt))) (pos 9)
