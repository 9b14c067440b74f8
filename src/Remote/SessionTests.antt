-- ===== src/Remote/SessionTests.antt =====
-- The output of a session with the echo of its command, and one whose markers share a byte.
use application_monitoring.Prelude.{
  ℕ, ◌+◌, ◌≡◌, ◌^◌, ◌<◌, refl, Bool, true, [], ◌∷◌, ◌++◌, none, some, arith, inl, ltb, length,
  if◌then◌else◌,
}
use application_monitoring.Text.{Bytes, codes, tokens, is_empty}
use application_monitoring.Double.{milli}
use application_monitoring.Types.{max_host, max_user, max_remote_path}
use application_monitoring.Processes.{process_list_init}
use application_monitoring.Remote.Session.{
  neo_sysinfo_marker, neo_csv_marker, find_last_occurrence, parse_remote_system_info,
  parse_combined_output, rows_session,
}
use application_monitoring.Remote.Markers.{latest, find_last_occurrence-latest}
use application_monitoring.Remote.Split.{from_totals, totals, parse_combined_output-session}
use application_monitoring.Remote.Hosts.{NeoRemoteTarget, remote_target_init}
use application_monitoring.Remote.Commands.{
  build_combined_remote_command, build_user_host, binary_or,
}
use application_monitoring.Remote.Contact.{telnet_script}
use application_monitoring.Remote.Uncut.{combined_command, whole_script, commands_whole}
use application_monitoring.Remote.Buffer.{
  NeoDynBuffer, dynbuf_append, Appended, dynbuf_append_total,
}
use application_monitoring.Remote.Overlap.{parse_combined_output-none}

abbrev no_number : Bytes → ℕ
no_number text = 0

abbrev room : ℕ → Bool
room n = true

-- `malloc` as glibc has it: 0 bytes can be had.
abbrev malloc : ℕ → Bool
malloc n = ltb n (2 ^ 63)

abbrev block : Bytes
block = 10 ∷ (codes "MemTotal:  2048 kB" ++ 10 ∷ (codes "4" ++ 10 ∷ []))

abbrev echo : Bytes
echo =
    codes "echo " ++ (neo_sysinfo_marker ++ (codes "; nproc; echo " ++ (neo_csv_marker ++ 10 ∷ [])))

block_read :
    parse_remote_system_info true block
    ≡ some (record { total_cpu = 0; total_memory_kb = 2048; cpu_count = 4 })
unfolding parse_remote_system_info tokens
block_read = refl

parse_combined_output-session_example :
    parse_combined_output milli no_number true true malloc room process_list_init
      (echo ++ from_totals block (10 ∷ []))
    ≡ some (
        rows_session milli no_number true true malloc room process_list_init
          (totals milli no_number true true malloc room block)
          (10 ∷ []))
unfolding latest
parse_combined_output-session_example =
    parse_combined_output-session milli no_number true true malloc room process_list_init echo block
      (10 ∷ []) refl refl (omega arith) refl

find_last_occurrence-latest_example :
    find_last_occurrence (codes "ababa") (codes "aba") ≡ latest (codes "aba") (codes "ababa")
find_last_occurrence-latest_example = find_last_occurrence-latest (codes "ababa") (codes "aba")

abbrev overlapping : Bytes
overlapping = codes "###NEO_SYSTEM_INFO_BEGIN#####NEO_PROCESS_CSV_BEGIN###"

overrun :
    parse_combined_output milli no_number true true malloc room process_list_init overlapping ≡ none
unfolding parse_combined_output
overrun = refl

parse_combined_output-none_example :
    (malloc 0 ≡ true)
    × ((sysinfo_start : Bytes) × (csv_start : Bytes) × (find_last_occurrence overlapping
            neo_sysinfo_marker
          ≡ some sysinfo_start)
        × (find_last_occurrence overlapping neo_csv_marker ≡ some csv_start)
        × (length sysinfo_start + 1 ≡ length csv_start + length neo_sysinfo_marker))
parse_combined_output-none_example =
    parse_combined_output-none milli no_number true true malloc room process_list_init overlapping
      (λ n h. ground (arith, h)) (omega arith) overrun

abbrev host : NeoRemoteTarget
host = record remote_target_init {
  host = codes "10.0.0.7";
  user = codes "root";
  password = codes "secret";
}

commands_whole_example :
    (build_combined_remote_command (max_remote_path + 128) host.remote_binary
      ≡ combined_command (binary_or host.remote_binary))
    × (build_user_host host.user host.host (max_host + max_user + 2)
        ≡ (if is_empty host.user then host.host else host.user ++ (b'@' ∷ host.host)))
    × ((telnet_script host
          (build_combined_remote_command (max_remote_path + 128) host.remote_binary)).0
        ≡ whole_script host)
    × ((telnet_script host
          (build_combined_remote_command (max_remote_path + 128) host.remote_binary)).1
        < 2200)
commands_whole_example = commands_whole host (record {
  host_fits = omega arith;
  user_fits = omega arith;
  password_fits = omega arith;
  binary_fits = omega arith;
})

abbrev full_buffer : NeoDynBuffer
full_buffer = record { data_bytes = codes "abc"; capacity = 4 }

dynbuf_append_total_example :
    Appended full_buffer (codes "abc" ++ codes "de") (dynbuf_append room full_buffer (codes "de"))
dynbuf_append_total_example =
    dynbuf_append_total room full_buffer (codes "de") (inl (omega arith)) (omega arith)
