-- ===== src/Metrics.antt =====
-- src/monitoring_metrics.c: the metrics of a process from its counters and those of the sample
-- before. `now` is `time(NULL)`, and `ticks` is `sysconf(_SC_CLK_TCK)`. The counters are 64-bit.
-- `update_metrics` also reads /proc/stat at its end and drops the result (`read_total_cpu`).
pub mod Bounds
mod Tests
use application_monitoring.Prelude.{
  ℕ, ℤ, pos, ◌+◌, ◌-◌, ◌%◌, ◌^◌, Bool, true, false, Option, none, some, ltb, leb, ltb_ℤ, leb_ℤ,
  ◌==◌, ◌&&◌, pos_part, if◌then◌else◌,
}
use application_monitoring.Double.{Double}
use application_monitoring.Types.{NeoProcess, NeoPreviousSample, NeoSystemInfo}

module _ {D : Type 0} (F : Double D) where
  unfoldable pub metrics_cpu_percent : ℕ → ℕ → ℕ → ℕ → ℕ → D
  metrics_cpu_percent current_total previous_total current_system_total previous_system_total cpus =
      if ltb current_total previous_total
      then F.ratio 0 1
      else if ltb current_system_total previous_system_total
      then F.ratio 0 1
      else if (current_system_total - previous_system_total) == 0
      then F.ratio 0 1
      else F.mul
          (F.mul
            (F.div (F.of_ℕ (current_total - previous_total))
              (F.of_ℕ (current_system_total - previous_system_total)))
            (F.ratio 100 1))
          (F.of_ℕ (if cpus == 0 then 1 else cpus))

  unfoldable pub metrics_memory_percent : ℕ → ℕ → D
  metrics_memory_percent rss_kb total_memory_kb =
      if total_memory_kb == 0
      then F.ratio 0 1
      else F.mul (F.div (F.of_ℕ rss_kb) (F.of_ℕ total_memory_kb)) (F.ratio 100 1)

  unfoldable pub metrics_io_rate : ℕ → ℕ → D → D
  metrics_io_rate current_bytes previous_bytes interval =
      if F.le interval (F.ratio 0 1)
      then F.ratio 0 1
      else if ltb current_bytes previous_bytes
      then F.ratio 0 1
      else F.div
          (F.div (F.of_ℕ (current_bytes - previous_bytes))
            (F.mul (F.ratio 1024 1) (F.ratio 1024 1)))
          interval

  unfoldable pub metrics_kb_to_mb : ℕ → D
  metrics_kb_to_mb kb = F.div (F.of_ℕ kb) (F.ratio 1024 1)

  unfoldable pub metrics_elapsed_seconds : ℤ → ℤ → D
  metrics_elapsed_seconds now start_time =
      if leb_ℤ start_time (pos 0)
      then F.ratio 0 1
      else if ltb_ℤ now start_time
      then F.ratio 0 1
      else F.difftime now start_time

  unfoldable pub metrics_total_cpu_time : NeoProcess D → ℕ
  metrics_total_cpu_time process = (process.utime + process.stime) % 2 ^ 64

  -- The fallback calculation of the CPU percentage, from wall-clock time.
  cpu_fallback : NeoProcess D → NeoPreviousSample → NeoSystemInfo → D → ℤ → D
  cpu_fallback process previous system interval ticks =
      if ltb process.total_time previous.total_time
      then F.ratio 0 1
      else if F.lt (F.ratio 0 1) interval
      then if ltb_ℤ (pos 0) ticks
        then (let percent =
              F.mul
                (F.div
                  (F.div (F.of_ℕ (process.total_time - previous.total_time))
                    (F.of_ℕ (pos_part ticks)))
                  interval)
                (F.ratio 100 1) in
            let max_cpu = F.mul (F.ratio 100 1) (F.of_ℕ system.cpu_count) in
            if ltb 1 system.cpu_count && F.lt max_cpu percent then max_cpu else percent)
        else F.ratio 0 1
      else F.ratio 0 1

  -- A NULL pointer is `none`.
  update_cpu : NeoProcess D → Option NeoPreviousSample → Option NeoSystemInfo → D → ℤ → D
  unfolding cpu_fallback
  update_cpu process none system interval ticks = F.ratio 0 1
  update_cpu process (some previous) none interval ticks = F.ratio 0 1
  update_cpu process (some previous) (some system) interval ticks =
      cpu_fallback process previous system interval ticks

  unfoldable pub update_metrics :
      ℤ → ℤ → NeoProcess D → Option NeoPreviousSample → Option NeoSystemInfo → D → NeoProcess D
  unfolding update_cpu metrics_memory_percent metrics_io_rate metrics_kb_to_mb
      metrics_elapsed_seconds
  update_metrics now ticks process previous system interval = record process {
    mem_percent = elim system [
      | none ↦ F.ratio 0 1
      | some info ↦ metrics_memory_percent process.rss_kb info.total_memory_kb
    ];
    rss_mb = metrics_kb_to_mb process.rss_kb;
    vsz_mb = metrics_kb_to_mb process.vsz_kb;
    swap_mb = metrics_kb_to_mb process.swap_kb;
    io_read_mb_s = elim previous [
      | none ↦ F.ratio 0 1
      | some p ↦ metrics_io_rate process.read_bytes p.read_bytes interval
    ];
    io_write_mb_s = elim previous [
      | none ↦ F.ratio 0 1
      | some p ↦ metrics_io_rate process.write_bytes p.write_bytes interval
    ];
    cpu_percent = update_cpu process previous system interval ticks;
    elapsed_seconds = metrics_elapsed_seconds now process.start_time;
  }
