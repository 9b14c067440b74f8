-- ===== src/Main/Capturing.antt =====
-- src/monotoring_services.c: `run_capture_mode`.
use application_monitoring.Prelude.{
  ℕ, ℤ, Bool, true, false, not, ◌&&◌, List, [], ◌∷◌, ◌++◌, Option, none, some, length,
  if◌then◌else◌, ◌==◌,
}
use application_monitoring.Text.{Bytes, codes, copy_bounded, is_empty}
use application_monitoring.Double.{Double}
use application_monitoring.Types.{
  NeoConfig, NeoProcess, NeoProcessList, NeoPreviousSample, NeoSystemInfo, log_error, log_info,
}
use application_monitoring.Processes.{process_list_init}
use application_monitoring.Scan.{ScanResult, scan_processes}
use application_monitoring.Sort.{Qsort, sort_processes}
use application_monitoring.Capture.{
  CpuTimes, MemInfo, CpuState, NeoCaptureSeries, capture_series_init, capture_sample,
}
use application_monitoring.Main.{
  Event, logged, wrote_csv, wrote_html, pause, capture_started, capture_system_failed,
  capture_scan_failed, capture_stopped, exit_success, exit_failure,
}

-- What one pass of the loop reads.
pub record CaptureRound (D : Type 0) : Type 0 where
  pub running : Bool
  pub system : Option NeoSystemInfo
  -- the environment of `scan_processes`
  pub names : Option (List Bytes)
  pub collect : ℤ → Option (NeoProcess D)
  pub now : ℤ → ℤ
  pub ticks : ℤ
  pub list_room : ℕ → Bool
  pub previous_room : ℕ → Bool
  -- the environment of `capture_sample`
  pub series_room : ℕ → Bool
  pub begun : ℤ
  pub sampled : ℤ
  pub times : Option CpuTimes
  pub memory : Option MemInfo
  -- the clock when the duration is compared
  pub clock : ℤ

-- The local variables, and the static ones of `read_cpu_percent`.
pub record Capturing (D : Type 0) : Type 0 where
  pub process_list : NeoProcessList D
  pub previous_list : List NeoPreviousSample
  pub series : NeoCaptureSeries D
  pub cpu : CpuState
  pub events : List (Event D)

-- A run that has not come to an end within its rounds, or that has returned a code.
pub data CaptureRun (D : Type 0) : Type 0 where
  capture_runs : Capturing D → CaptureRun D
  capture_ends : ℕ → Capturing D → CaptureRun D

abbrev pub noted : {D : Type 0} → Capturing D → List (Event D) → Capturing D
noted c events = record c { events = c.events ++ events }

module _ {D : Type 0} (F : Double D) (decimal : ℤ → Bytes) (qsort : Qsort (NeoProcess D))
    (config : NeoConfig D) (capture_start stop_clock : ℤ) (writes : Bytes → Bool) where
  -- The two paths; `stop_clock` is the time for their names.
  unfoldable pub capture_path : Bytes → Bytes
  unfolding copy_bounded
  capture_path extension = copy_bounded 600 (
      if is_empty config.capture_output
      then codes "capture_" ++ (decimal stop_clock ++ extension)
      else config.capture_output ++ extension)

  -- The two files, each if `capture_write_csv` and `capture_write_html_report` succeed; `writes path` says
  -- whether the file there can be opened. A failure is told on stderr, and that is all.
  unfoldable pub capture_write : Capturing D → List (Event D)
  unfolding capture_path
  capture_write c =
      let csv_path = capture_path (codes ".csv") in
      let html_path = capture_path (codes ".html") in
      (if writes csv_path then wrote_csv csv_path c.series.items ∷ [] else [])
      ++ (if writes html_path then wrote_html html_path c.series.items ∷ [] else [])

  -- What follows the loop.
  unfoldable pub capture_finish : Capturing D → CaptureRun D
  unfolding capture_write
  capture_finish c =
      let stopped = noted c (logged log_info (capture_stopped (length c.series.items)) ∷ []) in
      if length c.series.items == 0
      then capture_ends exit_failure stopped
      else capture_ends exit_success (noted stopped (capture_write stopped))

  -- Is this the last sample? `capture_duration_seconds` of 0 is no bound.
  abbrev pub is_over : CaptureRound D → Bool
  is_over r =
      F.lt (F.ratio 0 1) config.capture_duration_seconds
      && F.le config.capture_duration_seconds (F.difftime r.clock capture_start)

  unfoldable pub capture_scan : CaptureRound D → NeoSystemInfo → Capturing D → ScanResult D
  unfolding scan_processes
  capture_scan r system c =
      scan_processes F config system config.interval r.now r.ticks r.list_room r.previous_room
        r.collect c.process_list c.previous_list r.names

  -- The sample of the processes in order, and whether it is kept.
  unfoldable pub capture_taken : CaptureRound D → ScanResult D → Capturing D → Capturing D × Bool
  unfolding sort_processes capture_sample
  capture_taken r s c =
      let items = sort_processes F qsort s.list.items config.sort_mode config.reverse in
      let taken =
        capture_sample F r.series_room r.begun r.sampled r.times r.memory c.cpu c.series items in
      (
        record c {
          process_list = record s.list { items = items };
          previous_list = s.previous;
          cpu = taken.0;
          series = taken.1.0;
        },
        taken.1.1,
      )

  -- What a sample is followed by.
  unfoldable pub capture_after :
      CaptureRound D → Capturing D × Bool → (Capturing D → CaptureRun D) → CaptureRun D
  unfolding capture_finish
  capture_after r (c, kept) rest =
      if not kept
      then capture_finish c
      else if is_over r
      then capture_finish c
      else rest (noted c (pause F config ∷ []))

  -- while (running)
  unfoldable pub capture_loop : List (CaptureRound D) → Capturing D → CaptureRun D
  unfolding capture_finish capture_scan capture_taken capture_after
  capture_loop [] c = capture_runs c
  capture_loop (r ∷ rounds) c = elim r.running [
    | false ↦ capture_finish c
    | true ↦ elim r.system [
      | none ↦ capture_finish (noted c (logged log_error capture_system_failed ∷ []))
      | some system ↦
          let s = capture_scan r system c in
          let scanned : Capturing D = record c {
            process_list = s.list;
            previous_list = s.previous;
          } in
          elim s.ok [
            | false ↦ capture_finish (noted scanned (logged log_error capture_scan_failed ∷ []))
            | true ↦ capture_after r (capture_taken r s c) (capture_loop rounds)
          ]
    ]
  ]

  unfoldable pub run_capture_mode : CpuState → List (CaptureRound D) → CaptureRun D
  unfolding capture_loop
  run_capture_mode cpu rounds = capture_loop rounds (record {
    process_list = process_list_init;
    previous_list = [];
    series = capture_series_init;
    cpu = cpu;
    events = logged log_info capture_started ∷ [];
  })
