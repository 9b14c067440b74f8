-- ===== src/Readers/Tests.antt =====
-- The files of a process whose name has a blank and parentheses.
use application_monitoring.Prelude.{ℕ, ℤ, pos, ◌≡◌, refl, false, [], ◌∷◌, ◌++◌, none, some, arith}
use application_monitoring.Text.{Bytes, codes, tokens}
use application_monitoring.Double.{milli}
use application_monitoring.Readers.{process_read_cmdline, ends_in_blank}
use application_monitoring.Readers.Stat.{stat_comm}
use application_monitoring.Readers.Collect.{ProcFiles, process_collect, blank_process}
use application_monitoring.Readers.Words.{IsText, process_read_cmdline-IsText}
use application_monitoring.Types.{NeoProcess}
use application_monitoring.Readers.Fits.{Fits, process_collect-Fits}
use application_monitoring.Readers.Comm.{stat_comm_lem}

stat_comm_lem_example :
    stat_comm (codes "42 " ++ b'(' ∷ (codes "a) (b" ++ b')' ∷ (b' ' ∷ codes "S 1")))
    ≡ some (codes "a) (b", codes "S 1")
stat_comm_lem_example =
    stat_comm_lem (codes "42 ") (codes "a) (b") (codes "S 1") (ground arith) (ground arith)
      (omega arith)

abbrev raw_cmdline : Bytes
raw_cmdline = codes "ls" ++ (0 ∷ (codes "-l" ++ (0 ∷ [])))

cmdline_read : process_read_cmdline (some raw_cmdline) 64 ≡ some (codes "ls -l")
unfolding process_read_cmdline
cmdline_read = refl

process_read_cmdline-IsText_example :
    IsText 64 (codes "ls -l") × (ends_in_blank (codes "ls -l") ≡ false)
process_read_cmdline-IsText_example = process_read_cmdline-IsText (some raw_cmdline) 64 cmdline_read

abbrev stat_line : Bytes
stat_line = codes "42 (a) (b) S 1 1 1 0 -1 0 0 0 0 0 30 12 0 0 20 0 4 0 500 8192 3 0"

abbrev proc_files : ℤ → ProcFiles
proc_files pid = record {
  stat = some stat_line;
  status = some (codes "Uid:\t7\t7\t7\t7" ∷ codes "VmRSS:\t  12 kB" ∷ codes "Threads:\t4" ∷ []);
  cmdline = some raw_cmdline;
  io = none;
  stat_again = some stat_line;
  boot = some (codes "cpu 1 2" ∷ codes "btime 1000" ∷ []);
}

abbrev command : NeoProcess ℕ
command = record (blank_process milli (pos 42)) {
  ppid = pos 1;
  uid = 7;
  user = codes "root";
  state = b'S';
  threads = 4;
  utime = 30;
  stime = 12;
  total_time = 42;
  vsz_kb = 8;
  rss_kb = 12;
  start_time = pos 1005;
  comm = codes "a) (b";
  cmdline = codes "ls -l";
}

collected :
    process_collect milli
      (pos 4096)
      (pos 100)
      (λ uid. some (codes "root"))
      (λ n. [])
      proc_files
      (pos 42)
    ≡ some command
unfolding process_collect tokens
collected = refl

process_collect-Fits_example : Fits (pos 42) command
process_collect-Fits_example =
    process_collect-Fits milli (pos 4096) (pos 100) (λ uid. some (codes "root")) (λ n. [])
      proc_files (pos 42) collected
