-- ===== src/Readers.antt =====
-- src/monitoring_process.c: what the files of a process under /proc say. Each file is an argument: the bytes
-- that `read` gives, or the lines that `fgets` gives, and `none` where it cannot be opened or read.
-- `getpwuid` gives the name of an account, and `decimal` is `%u`. Here: the command line, `io` and `status`.
pub mod Collect
pub mod Comm
pub mod Fits
pub mod Stat
pub mod Words
mod Tests
use application_monitoring.Prelude.{
  ℕ, ℤ, pos, suc, ◌+◌, ◌-◌, ◌*◌, ◌/◌, ◌%◌, ◌^◌, Bool, true, false, not, ◌&&◌, ◌||◌, List, [], ◌∷◌,
  ◌++◌, Option, none, some, ltb, leb, ltb_ℤ, pos_part, ◌==◌, if◌then◌else◌, length, take, min,
}
use application_monitoring.Text.{Bytes, codes, strtok, copy_bounded, is_empty}
use application_monitoring.Text.Numbers.{strtol, strtoul, cast_int32}
use application_monitoring.Double.{Double}
use application_monitoring.Types.{NeoProcess, max_cmdline, max_user}
use application_monitoring.Remote.{first_byte}
use application_monitoring.Remote.Session.{after_prefix}

-- buffer[out - 1] != ' ', for a buffer that is not empty
unfoldable pub ends_in_blank : Bytes → Bool
ends_in_blank [] = false
ends_in_blank (c ∷ []) = c == b' '
ends_in_blank (c ∷ d ∷ out) = ends_in_blank (d ∷ out)

-- The copying loop.
unfoldable pub cmdline_loop : ℕ → Bytes → Bytes → Bytes
unfolding ends_in_blank
cmdline_loop size [] out = out
cmdline_loop size (c ∷ raw) out = elim (ltb (length out + 1) size) [
  | false ↦ out
  | true ↦ cmdline_loop size raw (
      if c == 0
      then if is_empty out || ends_in_blank out then out else out ++ b' ' ∷ []
      else out ++ c ∷ [])
]

-- The loop that drops the blanks at the end.
unfoldable pub trimmed : Bytes → Bytes
trimmed [] = []
trimmed (c ∷ out) = let rest = trimmed out in if c == b' ' && is_empty rest then [] else c ∷ rest

unfoldable pub process_read_cmdline : Option Bytes → ℕ → Option Bytes
unfolding cmdline_loop trimmed
process_read_cmdline none size = none
process_read_cmdline (some []) size = none
process_read_cmdline (some (c ∷ raw)) size =
    if size == 0
    then none
    else some (trimmed (cmdline_loop size (take (max_cmdline - 1) (c ∷ raw)) []))

-- sscanf(line, "<name>: %llu", &value) == 1
unfoldable pub scan_number : Bytes → Bytes → Option ℕ
unfolding after_prefix strtoul
scan_number name line = elim (after_prefix name line) [
  | none ↦ none
  | some rest ↦ if (strtoul rest).found then some (strtoul rest).value else none
]

abbrev value_or : Option ℕ → ℕ → ℕ
value_or none n = n
value_or (some m) n = m

-- The two values, after each line.
io_lines : List Bytes → ℕ × ℕ → ℕ × ℕ
unfolding scan_number
io_lines [] values = values
io_lines (line ∷ lines) (read_value, write_value) = io_lines lines (
  value_or (scan_number (codes "read_bytes:") line) read_value,
  value_or (scan_number (codes "write_bytes:") line) write_value,
)

unfoldable pub process_read_io : Option (List Bytes) → Option (ℕ × ℕ)
unfolding io_lines
process_read_io none = none
process_read_io (some lines) = some (io_lines lines (0, 0))

-- sscanf(line, "Uid:\t%lu\t%lu\t%lu\t%lu", ...) == 4: the first of four numbers.
unfoldable pub scan_uid : Bytes → Option ℕ
unfolding after_prefix strtoul
scan_uid line = elim (after_prefix (codes "Uid:") line) [
  | none ↦ none
  | some rest ↦
      let a = strtoul rest in
      let b = strtoul a.rest in
      let c = strtoul b.rest in
      if a.found && b.found && c.found && (strtoul c.rest).found then some a.value else none
]

-- The variables of `process_read_status`.
pub record Status : Type 0 where
  pub real_uid : ℕ
  pub rss : ℕ
  pub swap : ℕ
  pub thread_count : ℕ

unfoldable pub status_line : Bytes → Status → Status
unfolding scan_uid scan_number
status_line line s = elim (scan_uid line) [
  | some uid ↦ record s { real_uid = uid }
  | none ↦ elim (scan_number (codes "VmRSS:") line) [
    | some rss ↦ record s { rss = rss }
    | none ↦ elim (scan_number (codes "VmSwap:") line) [
      | some swap ↦ record s { swap = swap }
      | none ↦ record s {
        thread_count = value_or (scan_number (codes "Threads:") line) s.thread_count;
      }
    ]
  ]
]

status_lines : List Bytes → Status → Status
unfolding status_line
status_lines [] s = s
status_lines (line ∷ lines) s = status_lines lines (status_line line s)

module _ {D : Type 0} (getpwuid : ℕ → Option Bytes) (decimal : ℕ → Bytes) where
  unfoldable pub process_read_status : Option (List Bytes) → NeoProcess D → Option (NeoProcess D)
  unfolding status_lines copy_bounded
  process_read_status none process = none
  process_read_status (some lines) process =
      let s = status_lines lines (record { real_uid = 0; rss = 0; swap = 0; thread_count = 0 }) in
      let uid = s.real_uid % 2 ^ 32 in
      some (record process {
        uid = uid;
        user =
            copy_bounded max_user (elim (getpwuid uid) [ none ↦ decimal uid | some name ↦ name ]);
        rss_kb = s.rss;
        swap_kb = s.swap;
        threads = s.thread_count;
      })
