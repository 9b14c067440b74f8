-- ===== src/Capture/Tests.antt =====
-- The load between two readings, and a series of two samples.
use application_monitoring.Prelude.{ℕ, pos, ◌≡◌, refl, true, [], ◌∷◌, some, map}
use application_monitoring.Double.{milli}
use application_monitoring.Capture.{
  CpuTimes, CpuState, read_cpu_percent, NeoCaptureSample, capture_series_init,
}
use application_monitoring.Capture.Series.{
  Call, appended, sample_at, capture_append_sample-appended,
}

abbrev times : CpuTimes
times = record {
  user = 60;
  nice = 0;
  system = 20;
  idle = 110;
  iowait = 10;
  irq = 0;
  softirq = 0;
  steal = 0;
}

abbrev before : CpuState
before = record { prev_idle = 60; prev_total = 100; has_previous = true }

load : (read_cpu_percent milli (some times) before).1 ≡ 40000
unfolding read_cpu_percent
load = refl

abbrev values : NeoCaptureSample ℕ
values = record {
  elapsed_seconds = 0;
  cpu_percent = 40000;
  mem_percent = 50000;
  swap_percent = 0;
  io_read_mb_s = 0;
  io_write_mb_s = 0;
  process_count = 3;
}

abbrev first : Call ℕ
first = record { now = pos 10; later = pos 10; values = values }

abbrev second : Call ℕ
second = record { now = pos 12; later = pos 12; values = values }

capture_append_sample-appended_example :
    ((appended milli (λ n. true) capture_series_init (first ∷ second ∷ [])).items
      ≡ map (sample_at milli (pos 10)) (first ∷ second ∷ []))
    × ((appended milli (λ n. true) capture_series_init (first ∷ second ∷ [])).start_time ≡ pos 10)
capture_append_sample-appended_example =
    capture_append_sample-appended milli (λ n. true) (λ n. refl) first (second ∷ [])
