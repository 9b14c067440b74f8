-- ===== src/Metrics/Tests.antt =====
-- The metrics of a process on a machine with two CPUs, with thousandths for `double`.
use application_monitoring.Prelude.{ℕ, pos, ◌≡◌, refl, false, some, arith}
use application_monitoring.Text.{codes}
use application_monitoring.Double.{milli, milli-IsOrdered}
use application_monitoring.Types.{NeoProcess, NeoSystemInfo}
use application_monitoring.Examples.{process_of}
use application_monitoring.Processes.{sample_of}
use application_monitoring.Metrics.{update_metrics}
use application_monitoring.Metrics.Bounds.{update_metrics_cpu_bound}

abbrev before : NeoProcess ℕ
before = process_of (pos 7) (codes "sh") 40

abbrev after : NeoProcess ℕ
after = process_of (pos 7) (codes "sh") 90

abbrev machine : NeoSystemInfo
machine = record { total_cpu = 0; total_memory_kb = 8192; cpu_count = 2 }

abbrev next : NeoProcess ℕ
next = update_metrics milli (pos 100) (pos 100) after (some (sample_of before)) (some machine) 1000

update_metrics_cpu_bound_example :
    milli.lt (milli.mul (milli.ratio 100 1) (milli.of_ℕ 2)) next.cpu_percent ≡ false
update_metrics_cpu_bound_example =
    update_metrics_cpu_bound milli (pos 100) (pos 100) 1000 after (some (sample_of before)) machine
      milli-IsOrdered refl (omega arith)

half : next.cpu_percent ≡ 50000
unfolding update_metrics
half = refl
