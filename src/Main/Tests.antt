-- ===== src/Main/Tests.antt =====
-- Runs of the program on a machine whose memory is nearly used up.
use application_monitoring.Prelude.{
  ℕ, ℤ, ltb, length, pos, ◌≡◌, ◌*◌, inl, inr, refl, Bool, true, false, List, [], ◌∷◌, Option, none,
  some,
}
use application_monitoring.Text.{Bytes, codes}
use application_monitoring.Text.Numbers.{strtoul}
use application_monitoring.Double.{milli}
use application_monitoring.Types.{
  NeoConfig, NeoProcess, NeoProcessList, NeoSystemInfo, protocol_ssh,
}
use application_monitoring.Examples.{start_config, process_of}
use application_monitoring.Config.{config_init}
use application_monitoring.Capture.{MemInfo, cpu_start, read_mem_percent, capture_series_add}
use application_monitoring.Log.{LogState, g_log}
use application_monitoring.Sort.{Qsort}
use application_monitoring.Alert.{evaluate_one}
use application_monitoring.Ui.{Termios, TerminalState, Tty}
use application_monitoring.Options.{opt_csv, ok, Strtod}
use application_monitoring.Options.Apply.{apply_options, apply_option}
use application_monitoring.Options.Resolve.{
  config_parse, resolve, targets_command, apply_target, add_patterns, resolve_user, save_target,
}
use application_monitoring.Main.{Event, neo_exit_alert, exit_success}
use application_monitoring.Main.Local.{Round, Monitor, Run, runs, ends, run_local_monitor}
use application_monitoring.Main.Cooked.{IsCooked, run_local_monitor-IsCooked}
use application_monitoring.Main.Ends.{ended, run_local_monitor-once, run_local_monitor-ended}
use application_monitoring.Main.Filters.{apply_local_filters, matching, apply_local_filters_lem}
use application_monitoring.Main.Remote.{RemoteRound}
use application_monitoring.Main.Capturing.{
  CaptureRound, Capturing, CaptureRun, capture_ends, capture_runs, run_capture_mode,
}
use application_monitoring.Main.Samples.{files}
use application_monitoring.Main.Program.{World, Program, exited, going, overrun, main}
use application_monitoring.Main.Closing.{main-Closed, main-exited, has_exited}

abbrev keep : Qsort (NeoProcess ℕ)
keep cmp items = items

abbrev granted : ℕ → Bool
granted n = true

abbrev machine : NeoSystemInfo
machine = record { total_cpu = 100; total_memory_kb = 4096; cpu_count = 1 }

abbrev full : MemInfo
full = record { mem_total = 4096; mem_available = 1; mem_free = 1; swap_total = 0; swap_free = 0 }

-- A round in which /proc is empty.
abbrev round : Option ℕ → Round ℕ
round key = record {
  running = true;
  system = some machine;
  names = some [];
  collect = λ pid. none;
  now = λ pid. pos 0;
  ticks = pos 100;
  list_room = granted;
  previous_room = granted;
  times = none;
  memory = some full;
  cpu_now = pos 7;
  mem_now = pos 7;
  key = key;
}

abbrev cooked : Termios
cooked = record { icanon = true; echo = true; opost = true; vmin = 1; vtime = 0 }

abbrev fresh : TerminalState
fresh = record { attributes = cooked; original_terminal = cooked; terminal_configured = false }

abbrev answers : Tty
answers = record { interactive = true; tcgetattr_ok = true; tcsetattr_ok = true }

-- Memory above 1 percent is reported at once.
abbrev watching : NeoConfig ℕ
watching = record start_config { alert_mem_percent = 1000; alert_sustain_seconds = 0 }

abbrev rounds : List (Round ℕ)
rounds = round none ∷ round (some b'q') ∷ []

abbrev run : NeoConfig ℕ → Run ℕ
run config = run_local_monitor milli keep answers config cpu_start fresh rounds

abbrev monitor_of : Run ℕ → Monitor ℕ
monitor_of (runs m) = m
monitor_of (ends code m) = m

alerted_run : run watching ≡ ends neo_exit_alert (monitor_of (run watching))
unfolding run_local_monitor evaluate_one read_mem_percent
alerted_run = refl

run_local_monitor-IsCooked_example :
    IsCooked milli keep answers fresh neo_exit_alert (monitor_of (run watching))
run_local_monitor-IsCooked_example =
    run_local_monitor-IsCooked milli keep answers watching cpu_start fresh rounds refl refl
      alerted_run

run_local_monitor-ended_example : ended (run watching) ≡ true
run_local_monitor-ended_example =
    run_local_monitor-ended milli keep answers watching cpu_start fresh rounds (inr (inl refl))

run_local_monitor-once_example :
    ended (
      run_local_monitor milli keep answers
        (record start_config { once = true })
        cpu_start
        fresh
        rounds)
    ≡ true
run_local_monitor-once_example =
    run_local_monitor-once milli keep answers (record start_config { once = true }) cpu_start fresh
      (round none) (round (some b'q') ∷ []) refl

abbrev fetched_list : NeoProcessList ℕ
fetched_list = record {
  items = process_of (pos 1) (codes "init") 0 ∷ process_of (pos 7) (codes "sshd") 0 ∷ [];
  capacity = 8;
}

abbrev ssh_only : NeoConfig ℕ
ssh_only = record start_config { patterns = codes "ssh" ∷ [] }

apply_local_filters_example :
    (apply_local_filters ssh_only fetched_list).items ≡ matching ssh_only fetched_list.items
apply_local_filters_example = apply_local_filters_lem ssh_only fetched_list

abbrev minus_one : ℤ → Bytes
minus_one n = codes "0"

abbrev remote_round : RemoteRound
remote_round = record {
  running = true;
  run_command = λ argv input. record {
    exit_code = pos 0;
    out =
        codes
          "42,1,root,0,S,3,1.0000,2.0000,4.0000,8.0000,0.0000,0.0000,0.0000,0,5.000,\"init\",\"init\"";
    err = [];
  };
  block_copied = true;
  rows_copied = true;
  malloc = granted;
  room = granted;
}

abbrev remote_config : NeoConfig ℕ
remote_config = record start_config { protocol = protocol_ssh; remote_host = codes "10.0.0.7" }

abbrev capture_round : Bool → CaptureRound ℕ
capture_round running = record {
  running = running;
  system = some machine;
  names = some [];
  collect = λ pid. none;
  now = λ pid. pos 0;
  ticks = pos 100;
  list_room = granted;
  previous_room = granted;
  series_room = granted;
  begun = pos 7;
  sampled = pos 7;
  times = none;
  memory = some full;
  clock = pos 8;
}

-- The name of the report is too long for this file system.
abbrev csv_only : Bytes → Bool
csv_only path = ltb (length path) 14

abbrev capture : CaptureRun ℕ
capture =
    run_capture_mode milli minus_one keep start_config (pos 7) (pos 9) csv_only cpu_start
      (capture_round true ∷ capture_round false ∷ [])

abbrev capturing_of : CaptureRun ℕ → Capturing ℕ
capturing_of (capture_runs c) = c
capturing_of (capture_ends code c) = c

csv_written :
    files (capturing_of capture).events
    ≡ (codes "capture_0.csv", (capturing_of capture).series.items) ∷ []
unfolding run_capture_mode capture_series_add files
csv_written = refl

abbrev seconds : Bytes → Strtod ℕ
seconds text = record {
  value = (strtoul text).value * 1000;
  rest = (strtoul text).rest;
  found = (strtoul text).found;
}

abbrev world : World ℕ
world = record {
  choices = opt_csv ∷ [];
  arguments = [];
  load = λ path. none;
  save = λ list. true;
  getpwnam = λ name. none;
  copied = λ text. true;
  room = granted;
  opens = true;
  sigint_set = true;
  sigterm_set = true;
  tty = answers;
  terminal = fresh;
  rounds = rounds;
  remote_rounds = [];
  capture_rounds = [];
  capture_start = pos 0;
  stop_clock = pos 0;
  writes = λ path. true;
  run_command = λ argv input. record { exit_code = pos 0; out = []; err = [] };
  readable = λ path. true;
  stamp = λ n event. (pos 0, []);
  succeeds = λ n. true;
}

csv_given :
    config_parse milli seconds world.copied world.room world.load world.save world.getpwnam
      (config_init milli)
      world.choices
      world.arguments
    ≡ ok (record start_config { csv = true; batch = true }, none)
unfolding config_parse apply_options apply_option resolve targets_command apply_target add_patterns
    resolve_user save_target
csv_given = refl

main-exited_example : has_exited (main milli seconds minus_one keep world) ≡ true
main-exited_example =
    main-exited milli seconds minus_one keep world (round none) (round (some b'q') ∷ [])
      (refl, refl, refl) csv_given refl refl refl refl

abbrev log_of : Program ℕ → LogState
log_of (going events) = g_log
log_of (exited code log events) = log
log_of (overrun events) = g_log

abbrev program : Program ℕ
program = main milli seconds minus_one keep world

abbrev events_shown : Program ℕ → List (Event ℕ)
events_shown (going events) = events
events_shown (exited code log events) = events
events_shown (overrun events) = events

left : program ≡ exited exit_success (log_of program) (events_shown program)
unfolding main apply_options apply_option resolve targets_command apply_target add_patterns
    resolve_user save_target
left = refl

main-Closed_example : (log_of program).file ≡ none
main-Closed_example = main-Closed milli seconds minus_one keep world left
