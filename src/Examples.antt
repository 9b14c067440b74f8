-- ===== src/Examples.antt =====
-- Values that the tests share, over the fixed-point numbers of `Double/Milli`.
use application_monitoring.Prelude.{ℕ, ℤ, pos, []}
use application_monitoring.Text.{Bytes, codes}
use application_monitoring.Double.{milli}
use application_monitoring.Types.{NeoConfig, NeoProcess}
use application_monitoring.Config.{config_init}

abbrev pub start_config : NeoConfig ℕ
start_config = config_init milli

-- A process with a PID, a name and a CPU time, and zero elsewhere.
abbrev pub process_of : ℤ → Bytes → ℕ → NeoProcess ℕ
process_of pid comm total_time = record {
  pid = pid;
  ppid = pos 1;
  uid = 0;
  user = codes "root";
  state = b'S';
  threads = 1;
  utime = total_time;
  stime = 0;
  total_time = total_time;
  read_bytes = 0;
  write_bytes = 0;
  vsz_kb = 4096;
  rss_kb = 2048;
  swap_kb = 0;
  cpu_percent = 0;
  mem_percent = 0;
  rss_mb = 0;
  vsz_mb = 0;
  swap_mb = 0;
  io_read_mb_s = 0;
  io_write_mb_s = 0;
  start_time = pos 0;
  elapsed_seconds = 0;
  comm = comm;
  cmdline = [];
}
