-- ===== src/Capture.antt =====
-- src/monitoring_capture.c: the load of the machine and the series of samples. What /proc/stat and
-- /proc/meminfo hold is an argument, as `sscanf` reads it; `now` is `time(NULL)`.
pub mod Load
pub mod Series
mod Tests
use application_monitoring.Prelude.{
  ℕ, ℤ, pos, ◌+◌, ◌-◌, ◌*◌, ◌%◌, ◌^◌, Bool, true, false, ◌&&◌, List, [], ◌∷◌, ◌++◌, Option, none,
  some, ltb, leb, ◌==◌, if◌then◌else◌, length,
}
use application_monitoring.Double.{Double}
use application_monitoring.Types.{NeoProcess, NeoProcessList, initial_capacity}

-- The eight counters of the first line of /proc/stat; one that `sscanf` does not reach is 0.
pub record CpuTimes : Type 0 where
  pub user : ℕ
  pub nice : ℕ
  pub system : ℕ
  pub idle : ℕ
  pub iowait : ℕ
  pub irq : ℕ
  pub softirq : ℕ
  pub steal : ℕ

-- The three static variables of `read_cpu_percent`.
pub record CpuState : Type 0 where
  pub prev_idle : ℕ
  pub prev_total : ℕ
  pub has_previous : Bool

abbrev pub cpu_start : CpuState
cpu_start = record { prev_idle = 0; prev_total = 0; has_previous = false }

-- The sums of `unsigned long long` wrap around.
abbrev pub total_of : CpuTimes → ℕ
total_of t = (t.user + t.nice + t.system + t.idle + t.iowait + t.irq + t.softirq + t.steal) % 2 ^ 64

abbrev pub idle_of : CpuTimes → ℕ
idle_of t = (t.idle + t.iowait) % 2 ^ 64

-- The values of the lines of /proc/meminfo, and 0 for a line that is not there.
pub record MemInfo : Type 0 where
  pub mem_total : ℕ
  pub mem_available : ℕ
  pub mem_free : ℕ
  pub swap_total : ℕ
  pub swap_free : ℕ

pub record NeoCaptureSample (D : Type 0) : Type 0 where
  pub elapsed_seconds : D
  pub cpu_percent : D
  pub mem_percent : D
  pub swap_percent : D
  pub io_read_mb_s : D
  pub io_write_mb_s : D
  pub process_count : ℕ

pub record NeoCaptureSeries (D : Type 0) : Type 0 where
  pub items : List (NeoCaptureSample D)
  pub capacity : ℕ
  pub start_time : ℤ

module _ {D : Type 0} where
  abbrev pub capture_series_init : NeoCaptureSeries D
  capture_series_init = record { items = []; capacity = 0; start_time = pos 0 }

  -- The start time stays.
  abbrev pub capture_series_free : NeoCaptureSeries D → NeoCaptureSeries D
  capture_series_free series = record series { items = []; capacity = 0 }

  -- A full series doubles its capacity first; `room n` says whether `realloc` gives room for `n`.
  unfoldable pub capture_series_add :
      (ℕ → Bool) → NeoCaptureSeries D → NeoCaptureSample D → NeoCaptureSeries D × Bool
  capture_series_add room series sample =
      let new_capacity = if series.capacity == 0 then initial_capacity else series.capacity * 2 in
      if leb series.capacity (length series.items)
      then if room new_capacity
        then (record series { items = series.items ++ sample ∷ []; capacity = new_capacity }, true)
        else (series, false)
      else (record series { items = series.items ++ sample ∷ [] }, true)

  -- if (series->count == 0) series->start_time = time(NULL);
  abbrev pub started : NeoCaptureSeries D → ℤ → NeoCaptureSeries D
  started series now =
      if length series.items == 0 then record series { start_time = now } else series

module _ {D : Type 0} (F : Double D) where
  -- if (percent < 0.0) ...; if (percent > 100.0) ...
  clamped : D → D
  clamped percent =
      let low = if F.lt percent (F.ratio 0 1) then F.ratio 0 1 else percent in
      if F.lt (F.ratio 100 1) low then F.ratio 100 1 else low

  -- The share of the time since the last reading that was not idle.
  busy_share : CpuState → CpuTimes → D
  busy_share s t =
      if s.has_previous && ltb s.prev_total (total_of t)
      then (let total_delta = total_of t - s.prev_total in
          let idle_delta = if leb s.prev_idle (idle_of t) then idle_of t - s.prev_idle else 0 in
          if ltb 0 total_delta
          then F.mul (F.ratio 100 1)
              (F.sub (F.ratio 1 1) (F.div (F.of_ℕ idle_delta) (F.of_ℕ total_delta)))
          else F.ratio 0 1)
      else F.ratio 0 1

  -- `none` where the file cannot be opened or read.
  unfoldable pub read_cpu_percent : Option CpuTimes → CpuState → CpuState × D
  unfolding clamped busy_share
  read_cpu_percent none s = (s, F.ratio 0 1)
  read_cpu_percent (some t) s = (
    record { prev_idle = idle_of t; prev_total = total_of t; has_previous = true },
    clamped (busy_share s t),
  )

  -- `none` stands for -1.
  unfoldable pub read_mem_percent : Option MemInfo → Option (D × D)
  unfolding clamped
  read_mem_percent none = none
  read_mem_percent (some m) =
      let available = if ltb 0 m.mem_available then m.mem_available else m.mem_free in
      let used : ℕ → ℕ → D = λ free total.
        F.mul (F.ratio 100 1) (F.sub (F.ratio 1 1) (F.div (F.of_ℕ free) (F.of_ℕ total))) in
      if m.mem_total == 0
      then none
      else some (
        clamped (used available m.mem_total),
        if ltb 0 m.swap_total then used m.swap_free m.swap_total else F.ratio 0 1,
      )

  -- The load and the shares of memory and swap, 0.0 where they cannot be read.
  unfoldable pub capture_read_system :
      Option CpuTimes → Option MemInfo → CpuState → CpuState × D × D × D
  capture_read_system times memory s =
      let cpu = read_cpu_percent times s in
      elim (read_mem_percent memory) [
        | none ↦ (cpu.0, cpu.1, F.ratio 0 1, F.ratio 0 1)
        | some (mem, swap) ↦ (cpu.0, cpu.1, mem, swap)
      ]

  -- The loop over the processes.
  io_rates : List (NeoProcess D) → D → D → D × D
  io_rates [] read_rate write_rate = (read_rate, write_rate)
  io_rates (p ∷ items) read_rate write_rate =
      io_rates items (F.add read_rate p.io_read_mb_s) (F.add write_rate p.io_write_mb_s)

  -- `now` and `later` are the two readings of the clock.
  unfoldable pub capture_sample :
      (ℕ → Bool)
      → ℤ
      → ℤ
      → Option CpuTimes
      → Option MemInfo
      → CpuState
      → NeoCaptureSeries D
      → List (NeoProcess D)
      → CpuState × (NeoCaptureSeries D × Bool)
  unfolding read_mem_percent io_rates
  capture_sample room now later times memory s series items =
      let begun = started series now in
      let cpu = read_cpu_percent times s in
      let percents : D × D = elim (read_mem_percent memory) [
        | none ↦ (F.ratio 0 1, F.ratio 0 1)
        | some both ↦ both
      ] in
      let (read_rate, write_rate) = io_rates items (F.ratio 0 1) (F.ratio 0 1) in
      (
        cpu.0,
        capture_series_add room begun (record {
          elapsed_seconds = F.difftime later begun.start_time;
          cpu_percent = cpu.1;
          mem_percent = percents.0;
          swap_percent = percents.1;
          io_read_mb_s = read_rate;
          io_write_mb_s = write_rate;
          process_count = length items;
        }),
      )

  -- The arguments of the values are the fields of `values`, whose elapsed time is set.
  unfoldable pub capture_append_sample :
      (ℕ → Bool) → ℤ → ℤ → NeoCaptureSeries D → NeoCaptureSample D → NeoCaptureSeries D × Bool
  capture_append_sample room now later series values =
      let begun = started series now in
      capture_series_add room begun
        (record values { elapsed_seconds = F.difftime later begun.start_time })
