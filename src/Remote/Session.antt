-- ===== src/Remote/Session.antt =====
-- src/monitoring_remote.c: the output of a session, which holds the totals of the remote host and its CSV
-- rows, each behind a marker. A pointer into the output is the text from there on. `copied` says whether
-- `strdup` succeeds, and `malloc n` whether `n` bytes can be had.
use application_monitoring.Prelude.{
  ℕ, zero, suc, pos, negsuc, ◌+◌, ◌-◌, ◌%◌, ◌^◌, Bool, true, false, not, ◌&&◌, List, [], ◌∷◌,
  Option, none, some, ltb, ◌==◌, if◌then◌else◌, length, take,
}
use application_monitoring.Text.{Bytes, codes, strtok, is_empty}
use application_monitoring.Text.Numbers.{strtol, strtoul}
use application_monitoring.Double.{Double}
use application_monitoring.Types.{NeoProcessList, NeoSystemInfo}
use application_monitoring.Remote.{parse_csv_output}

abbrev pub neo_sysinfo_marker : Bytes
neo_sysinfo_marker = codes "###NEO_SYSTEM_INFO_BEGIN###"

abbrev pub neo_csv_marker : Bytes
neo_csv_marker = codes "###NEO_PROCESS_CSV_BEGIN###"

-- What follows a prefix, if the text has it.
unfoldable pub after_prefix : Bytes → Bytes → Option Bytes
after_prefix [] text = some text
after_prefix (c ∷ prefix) [] = none
after_prefix (c ∷ prefix) (d ∷ text) = elim (c == d) [
  | false ↦ none
  | true ↦ after_prefix prefix text
]

abbrev pub has_prefix : Bytes → Bytes → Bool
has_prefix prefix text = elim (after_prefix prefix text) [ none ↦ false | some rest ↦ true ]

-- The text from the first occurrence on; `needle` is not empty.
unfoldable pub strstr : Bytes → Bytes → Option Bytes
unfolding after_prefix
strstr [] needle = none
strstr (c ∷ haystack) needle = elim (has_prefix needle (c ∷ haystack)) [
  | true ↦ some (c ∷ haystack)
  | false ↦ strstr haystack needle
]

-- ++cursor
abbrev pub next : Bytes → Bytes
next [] = []
next (c ∷ cursor) = cursor

-- The loop, for as many rounds as there are bytes to search.
unfoldable pub last_loop : ℕ → Bytes → Bytes → Option Bytes → Option Bytes
unfolding strstr
last_loop zero cursor needle result = result
last_loop (suc rounds) cursor needle result = elim (strstr cursor needle) [
  | none ↦ result
  | some found ↦ last_loop rounds (next found) needle (some found)
]

unfoldable pub find_last_occurrence : Bytes → Bytes → Option Bytes
unfolding last_loop
find_last_occurrence haystack needle = last_loop (length haystack) haystack needle none

-- sscanf(line, "MemTotal: %llu kB", &value) == 1, and the same without the blank, which reads the same
-- lines: a blank stands for any white space, and %llu skips it.
unfoldable pub mem_total_of : Bytes → Option ℕ
unfolding after_prefix strtoul
mem_total_of line = elim (after_prefix (codes "MemTotal:") line) [
  | none ↦ none
  | some rest ↦ if (strtoul rest).found then some (strtoul rest).value else none
]

-- A line that is a positive number and nothing else.
unfoldable pub cpu_count_of : Bytes → Option ℕ
unfolding strtol
cpu_count_of line =
    let parsed = strtol line in
    if parsed.found && is_empty parsed.rest
    then elim parsed.value [ pos n ↦ if ltb 0 n then some (n % 2 ^ 32) else none | negsuc n ↦ none ]
    else none

-- The loop over the lines.
sysinfo_lines : List Bytes → Option ℕ → Option ℕ → Option ℕ × Option ℕ
unfolding mem_total_of cpu_count_of
sysinfo_lines [] mem cpu = (mem, cpu)
sysinfo_lines (line ∷ lines) mem cpu = elim (mem_total_of line) [
  | some value ↦ sysinfo_lines lines (some value) cpu
  | none ↦ elim cpu [
    | some count ↦ sysinfo_lines lines mem (some count)
    | none ↦ sysinfo_lines lines mem (cpu_count_of line)
  ]
]

abbrev from_option : Option ℕ → ℕ → ℕ
from_option none n = n
from_option (some m) n = m

-- The value that `*out` has afterwards; `none` if there is no memory for the copy, so that it stays.
unfoldable pub parse_remote_system_info : Bool → Bytes → Option NeoSystemInfo
unfolding sysinfo_lines
parse_remote_system_info copied text =
    if not copied
    then none
    else let (mem, cpu) = sysinfo_lines (strtok b'\n' text) none none in
      some (record {
        total_cpu = 0;
        total_memory_kb = from_option mem 0;
        cpu_count = from_option cpu 1;
      })

-- memset(system, 0, sizeof(*system)); system->cpu_count = 1;
abbrev pub unknown_system : NeoSystemInfo
unknown_system = record { total_cpu = 0; total_memory_kb = 0; cpu_count = 1 }

-- The number of bytes between the end of the first marker and the start of the second one, as a `size_t`.
abbrev pub sysinfo_len : Bytes → Bytes → ℕ
sysinfo_len sysinfo_start csv_start =
    (length sysinfo_start + 2 ^ 64 - (length csv_start + length neo_sysinfo_marker)) % 2 ^ 64

-- The list, the totals, and whether the function returns 0.
pub record Session (D : Type 0) : Type 0 where
  pub list : NeoProcessList D
  pub system : NeoSystemInfo
  pub ok : Bool

-- The bytes behind the marker, which is known to stand there.
abbrev pub behind : Bytes → Bytes → Bytes
behind marker start = elim (after_prefix marker start) [ none ↦ [] | some rest ↦ rest ]

module _ {D : Type 0} (F : Double D) (strtod : Bytes → D) (block_copied rows_copied : Bool)
    (malloc : ℕ → Bool) (room : ℕ → Bool) where
  -- return parse_csv_output(...), with the totals so far.
  abbrev pub rows_session : NeoProcessList D → NeoSystemInfo → Bytes → Session D
  rows_session list system rows =
      let (list', ok) = parse_csv_output F strtod rows_copied room list rows in
      record { list = list'; system = system; ok = ok }

  -- The totals of the block between the markers; `none` where `memcpy` reads behind the end of the text.
  unfoldable pub block_system : Bytes → Bytes → Option NeoSystemInfo
  unfolding parse_remote_system_info
  block_system sysinfo_start csv_start =
      let n = sysinfo_len sysinfo_start csv_start in
      let rest = behind neo_sysinfo_marker sysinfo_start in
      if malloc ((n + 1) % 2 ^ 64)
      then if ltb (length rest) n
        then none
        else elim (parse_remote_system_info block_copied (take n rest)) [
          | none ↦ some unknown_system
          | some system ↦ some system
        ]
      else some unknown_system

  -- `none` where the block is copied out of bounds.
  unfoldable pub parse_combined_output : NeoProcessList D → Bytes → Option (Session D)
  unfolding find_last_occurrence block_system parse_csv_output after_prefix
  parse_combined_output list text = elim (find_last_occurrence text neo_sysinfo_marker) [
    | none ↦ some (rows_session list unknown_system text)
    | some sysinfo_start ↦ elim (find_last_occurrence text neo_csv_marker) [
      | none ↦ some (rows_session list unknown_system text)
      | some csv_start ↦
          if ltb (length csv_start) (length sysinfo_start)
          then elim (block_system sysinfo_start csv_start) [
            | none ↦ none
            | some system ↦ some (rows_session list system (behind neo_csv_marker csv_start))
          ]
          else some (rows_session list unknown_system text)
    ]
  ]
