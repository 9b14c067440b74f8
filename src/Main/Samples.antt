-- ===== src/Main/Samples.antt =====
-- What a capture leaves.
use application_monitoring.Prelude.{
  ℕ, ℤ, ◌<◌, ◌≡◌, Bool, List, [], ◌∷◌, ◌++◌, length, if◌then◌else◌, ◌⊎◌,
}
use application_monitoring.Text.{Bytes, codes}
use application_monitoring.Double.{Double}
use application_monitoring.Types.{NeoConfig, NeoProcess}
use application_monitoring.Sort.{Qsort}
use application_monitoring.Capture.{NeoCaptureSample}
use application_monitoring.Main.{
  Event, json_output, csv_output, table_output, acted, logged, slept, wrote_csv, wrote_html,
  exit_failure, exit_success,
}
use application_monitoring.Main.Capturing.{
  Capturing, CaptureRun, capture_runs, capture_ends, capture_path,
}

module _ {D : Type 0} where
  -- The files that were written, with their samples.
  unfoldable pub files : List (Event D) → List (Bytes × List (NeoCaptureSample D))
  files [] = []
  files (wrote_csv path samples ∷ events) = (path, samples) ∷ files events
  files (wrote_html path samples ∷ events) = (path, samples) ∷ files events
  files (json_output config system items ∷ events) = files events
  files (csv_output config items ∷ events) = files events
  files (table_output config system count items ∷ events) = files events
  files (acted action ∷ events) = files events
  files (logged level message ∷ events) = files events
  files (slept seconds ∷ events) = files events

module _ {D : Type 0} (F : Double D) (decimal : ℤ → Bytes) (qsort : Qsort (NeoProcess D))
    (config : NeoConfig D) (capture_start stop_clock : ℤ) (writes : Bytes → Bool) where
  -- The whole series in the file at the path, if that can be opened.
  abbrev pub series_at : Bytes → Capturing D → List (Bytes × List (NeoCaptureSample D))
  series_at path c = if writes path then (path, c.series.items) ∷ [] else []

  -- Each file that can be opened holds the whole series; or there is no sample and no file.
  abbrev pub Saved : ℕ → Capturing D → Type 0
  Saved code c =
      ((c.series.items ≡ []) × (files c.events ≡ []) × (code ≡ exit_failure))
      ⊎ ((0 < length c.series.items)
          × (files c.events
              ≡ series_at
                  (capture_path F decimal qsort config capture_start stop_clock writes
                    (codes ".csv"))
                  c
                ++ series_at
                    (capture_path F decimal qsort config capture_start stop_clock writes
                      (codes ".html"))
                    c)
          × (code ≡ exit_success))

  abbrev pub Ending : (ℕ → Capturing D → Type 0) → CaptureRun D → Type 0
  Ending Q (capture_runs c) = Unit
  Ending Q (capture_ends code c) = Q code c
