-- ===== src/Readers/Collect.antt =====
-- src/monitoring_process.c: `process_get_start_time` and `process_collect`. `ticks_per_second` is what
-- `sysconf` answers.
use application_monitoring.Prelude.{
  ℕ, ℤ, pos, negsuc, suc, ◌+◌, ◌-◌, ◌/◌, ◌%◌, ◌^◌, List, [], ◌∷◌, Option, none, some, ltb, leb_ℤ,
  pos_part, ◌==◌, if◌then◌else◌,
}
use application_monitoring.Text.{Bytes, codes, strtok, copy_bounded}
use application_monitoring.Text.Numbers.{strtoul}
use application_monitoring.Types.{NeoProcess, max_cmdline}
use application_monitoring.Double.{Double}
use application_monitoring.Readers.{
  process_read_cmdline, process_read_io, process_read_status, scan_number,
}
use application_monitoring.Readers.Stat.{process_read_stat, strchr, strrchr, behind_byte}

-- What `fgets`, `read` and `fopen` give for the files of a process, and for /proc/stat; the line of stat is
-- read twice.
pub record ProcFiles : Type 0 where
  pub stat : Option Bytes
  pub status : Option (List Bytes)
  pub cmdline : Option Bytes
  pub io : Option (List Bytes)
  pub stat_again : Option Bytes
  pub boot : Option (List Bytes)

-- The loop over the fields: field 22, and 0 if the line ends before.
unfoldable pub start_field : ℕ → List Bytes → ℕ
unfolding strtoul
start_field field [] = 0
start_field field (token ∷ tokens) =
    let rest = start_field (suc field) tokens in if field == 22 then (strtoul token).value else rest

-- The first line with the boot time, and 0 if there is none.
unfoldable pub boot_time : List Bytes → ℕ
unfolding scan_number
boot_time [] = 0
boot_time (line ∷ lines) = elim (scan_number (codes "btime") line) [
  | some value ↦ value
  | none ↦ boot_time lines
]

-- The cast of an `unsigned long long` to `time_t`.
abbrev cast_time : ℕ → ℤ
cast_time n = if ltb n (2 ^ 63) then pos n else negsuc (2 ^ 64 - 1 - n)

unfoldable pub process_get_start_time : ℤ → Option Bytes → Option (List Bytes) → Option ℤ
unfolding start_field boot_time strchr strrchr
process_get_start_time ticks_per_second none boot = none
process_get_start_time ticks_per_second (some buffer) boot = elim (strchr buffer b'(') [
  | none ↦ none
  | some left_paren ↦ elim (strrchr buffer b')') [
    | none ↦ none
    | some right_paren ↦
        let start_ticks = start_field 3 (strtok b' ' (behind_byte (behind_byte right_paren))) in
        if leb_ℤ ticks_per_second (pos 0) then none else elim boot [
          | none ↦ none
          | some lines ↦
              if boot_time lines == 0
              then none
              else some
                  (cast_time ((boot_time lines + start_ticks / pos_part ticks_per_second) % 2 ^ 64))
        ]
  ]
]

module _ {D : Type 0} (F : Double D) where
  -- memset(process, 0, sizeof(*process)); process->pid = pid;
  abbrev pub blank_process : ℤ → NeoProcess D
  blank_process pid = record {
    pid = pid;
    ppid = pos 0;
    uid = 0;
    user = [];
    state = 0;
    threads = 0;
    utime = 0;
    stime = 0;
    total_time = 0;
    read_bytes = 0;
    write_bytes = 0;
    vsz_kb = 0;
    rss_kb = 0;
    swap_kb = 0;
    cpu_percent = F.ratio 0 1;
    mem_percent = F.ratio 0 1;
    rss_mb = F.ratio 0 1;
    vsz_mb = F.ratio 0 1;
    swap_mb = F.ratio 0 1;
    io_read_mb_s = F.ratio 0 1;
    io_write_mb_s = F.ratio 0 1;
    start_time = pos 0;
    elapsed_seconds = F.ratio 0 1;
    comm = [];
    cmdline = [];
  }

  module _ (page_size ticks_per_second : ℤ) (getpwuid : ℕ → Option Bytes)
      (decimal : ℕ → Bytes) where
    -- What follows the two files that must be readable.
    unfoldable pub complete : ProcFiles → NeoProcess D → NeoProcess D
    unfolding process_read_cmdline process_read_io process_get_start_time copy_bounded
    complete files process =
        let (read_bytes, write_bytes) : ℕ × ℕ = elim (process_read_io files.io) [
          | none ↦ (0, 0)
          | some values ↦ values
        ] in
        record process {
          cmdline = elim (process_read_cmdline files.cmdline max_cmdline) [
            | none ↦ copy_bounded max_cmdline process.comm
            | some text ↦ text
          ];
          read_bytes = read_bytes;
          write_bytes = write_bytes;
          start_time = elim (process_get_start_time ticks_per_second files.stat_again files.boot) [
            | none ↦ process.start_time
            | some time ↦ time
          ];
        }

    unfoldable pub process_collect : (ℤ → ProcFiles) → ℤ → Option (NeoProcess D)
    unfolding process_read_stat process_read_status complete
    process_collect files pid =
        if leb_ℤ pid (pos 0)
        then none
        else elim (process_read_stat page_size (files pid).stat (blank_process pid)) [
          | none ↦ none
          | some started ↦ elim (process_read_status getpwuid decimal (files pid).status started) [
            | none ↦ none
            | some known ↦ some (complete (files pid) known)
          ]
        ]
