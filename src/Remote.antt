-- ===== src/Remote.antt =====
-- src/monitoring_remote.c: the CSV rows that a remote host sends. `strtod` is a parameter.
pub mod Quoted
pub mod Buffer
pub mod Commands
pub mod Contact
pub mod Deploy
pub mod Fresh
pub mod Hosts
pub mod Markers
pub mod Overlap
pub mod Rows
pub mod Session
mod SessionTests
pub mod Split
pub mod Uncut
mod Tests
use application_monitoring.Prelude.{
  ℕ, zero, suc, pos, leb_ℤ, ◌%◌, ◌^◌, ◌+◌, Bool, true, false, List, [], ◌∷◌, ◌++◌, Option, none,
  some, ltb, ◌==◌, if◌then◌else◌, length,
}
use application_monitoring.Text.{Bytes, put, codes, strtok, copy_bounded}
use application_monitoring.Text.Numbers.{Strtol, strtol, strtoul, cast_int32}
use application_monitoring.Double.{Double}
use application_monitoring.Types.{NeoProcess, NeoProcessList, max_user, max_cmdline}
use application_monitoring.Processes.{process_list_init, process_list_add}

-- The loop: `out` is what was read. The rest of the text begins behind the closing quote.
unfoldable pub quoted_loop : ℕ → Bytes → Bytes → Bytes × Bytes
quoted_loop out_size out [] = (out, [])
quoted_loop out_size out (c ∷ []) = if c == b'"' then (out, []) else (put out_size out c, [])
quoted_loop out_size out (c ∷ d ∷ p) = elim (c == b'"') [
  | false ↦ quoted_loop out_size (put out_size out c) (d ∷ p)
  | true ↦ elim (d == b'"') [
    | true ↦ quoted_loop out_size (put out_size out b'"') p
    | false ↦ (out, d ∷ p)
  ]
]

-- The field and the new `*cursor`; `none` if there is no quote at the cursor.
unfoldable pub parse_quoted_field : ℕ → Bytes → Option (Bytes × Bytes)
unfolding quoted_loop
parse_quoted_field out_size [] = none
parse_quoted_field out_size (c ∷ p) = if c == b'"' then some (quoted_loop out_size [] p) else none

-- The loop over the 15 fields in front of the texts, each with its array of 64: `count` fields are to
-- be read, `out` is what the present one has. `none` if the line ends before all were seen.
unfoldable pub csv_fields : ℕ → Bytes → Bytes → Option (List Bytes × Bytes)
csv_fields zero out p = some ([], p)
csv_fields (suc count) out [] = none
csv_fields (suc count) out (c ∷ p) = elim (c == b',') [
  | false ↦ csv_fields (suc count) (put 64 out c) p
  | true ↦ elim (csv_fields count [] p) [
    | none ↦ none
    | some (fields, rest) ↦ some (out ∷ fields, rest)
  ]
]

-- field[i]
abbrev pub field : List Bytes → ℕ → Bytes
field [] i = []
field (f ∷ fields) zero = f
field (f ∷ fields) (suc i) = field fields i

-- field[i][0]
abbrev pub first_byte : Bytes → ℕ
first_byte [] = 0
first_byte (c ∷ s) = c

-- The texts behind the 15 fields: the name, a comma and the command line.
unfoldable pub csv_texts : Bytes → Option (Bytes × Bytes)
csv_texts p = elim (parse_quoted_field 256 p) [
  | none ↦ none
  | some (comm, []) ↦ none
  | some (comm, c ∷ rest) ↦
      if c == b','
      then elim (parse_quoted_field max_cmdline rest) [
        | none ↦ none
        | some (cmdline, end) ↦ some (comm, cmdline)
      ]
      else none
]

-- if (len > 0 && line[len - 1] == '\r') line[len - 1] = '\0';
unfoldable pub without_return : Bytes → Bytes
without_return [] = []
without_return (c ∷ []) = if c == 13 then [] else c ∷ []
without_return (c ∷ d ∷ s) = c ∷ without_return (d ∷ s)

module _ {D : Type 0} (F : Double D) (strtod : Bytes → D) where
  -- The process of a row; what the row does not hold is zero by the `memset`.
  unfoldable pub csv_process : List Bytes → Bytes → Bytes → NeoProcess D
  unfolding strtol strtoul copy_bounded
  csv_process fields comm cmdline =
      let rss_mb = strtod (field fields 8) in
      let vsz_mb = strtod (field fields 9) in
      let swap_mb = strtod (field fields 10) in
      record {
        pid = cast_int32 (strtol (field fields 0)).value;
        ppid = cast_int32 (strtol (field fields 1)).value;
        uid = (strtoul (field fields 3)).value % 2 ^ 32;
        user = copy_bounded max_user (field fields 2);
        state = first_byte (field fields 4);
        threads = (strtoul (field fields 5)).value;
        utime = 0;
        stime = 0;
        total_time = 0;
        read_bytes = 0;
        write_bytes = 0;
        vsz_kb = F.to_ℕ (F.mul vsz_mb (F.ratio 1024 1));
        rss_kb = F.to_ℕ (F.mul rss_mb (F.ratio 1024 1));
        swap_kb = F.to_ℕ (F.mul swap_mb (F.ratio 1024 1));
        cpu_percent = strtod (field fields 6);
        mem_percent = strtod (field fields 7);
        rss_mb = rss_mb;
        vsz_mb = vsz_mb;
        swap_mb = swap_mb;
        io_read_mb_s = strtod (field fields 11);
        io_write_mb_s = strtod (field fields 12);
        start_time = (strtol (field fields 13)).value;
        elapsed_seconds = strtod (field fields 14);
        comm = comm;
        cmdline = cmdline;
      }

  unfoldable pub parse_csv_line : Bytes → Option (NeoProcess D)
  parse_csv_line line = elim (csv_fields 15 [] line) [
    | none ↦ none
    | some (fields, p) ↦ elim (csv_texts p) [
      | none ↦ none
      | some (comm, cmdline) ↦
          let process = csv_process fields comm cmdline in
          if leb_ℤ process.pid (pos 0) then none else some process
    ]
  ]

  -- The loop over the lines: those that are no rows are skipped, and so is what `remote_list_add`,
  -- which is `process_list_add` again, has no memory for.
  csv_lines : (ℕ → Bool) → NeoProcessList D → List Bytes → NeoProcessList D
  unfolding without_return process_list_add
  csv_lines room list [] = list
  csv_lines room list (line ∷ lines) = elim (parse_csv_line (without_return line)) [
    | none ↦ csv_lines room list lines
    | some process ↦ elim (process_list_add room list process) [
      | none ↦ csv_lines room list lines
      | some list' ↦ csv_lines room list' lines
    ]
  ]

  -- `copied` says whether `strdup` succeeds. The list is freed and initialised once it has.
  unfoldable pub parse_csv_output :
      Bool → (ℕ → Bool) → NeoProcessList D → Bytes → NeoProcessList D × Bool
  unfolding csv_lines
  parse_csv_output copied room list csv_text =
      if copied
      then (csv_lines room process_list_init (strtok b'\n' csv_text), true)
      else (list, false)
