-- ===== src/Lib.antt =====
-- NEO Monitoring Services: a process monitor for Linux, in C, with a terminal and a Qt frontend.
--
-- A round of the program scans /proc (src/monitoring_services_core.c), collects each process
-- (src/monitoring_process.c), drops those that the filters reject (src/monitoring_filter.c), computes
-- metrics against the sample of the round before (src/monitoring_metrics.c), keeps the sample for the
-- next one, sorts the list and shows it (src/monitoring_output.c). Alerts (src/monitoring_alert.c) watch
-- the machine's load over the rounds, and the log (src/monitoring_log.c) keeps what all parts report.
-- The terminal frontend changes the configuration by keys (src/monitoring_ui.c), and a user can signal
-- or renice a process (src/monitoring_process_control.c). Saved targets (src/monitoring_targets.c) name
-- remote hosts (src/monitoring_remote.c), whose processes come as CSV.
--
-- Which file models what; every function has the name that it has in C:
--   Prelude         shared names, Boolean tests, lists and integers over the native numbers
--   Text            C strings and the functions of <ctype.h>, <string.h> and <stdlib.h> on them
--   Double          `double` as an interface, with the laws of IEEE 754 that proofs use
--   Types           inc/monitoring_services.h: the types that all parts share
--   Config          src/monitoring_services_core.c: `config_init`, `config_free`
--   Options         src/monitoring_services_core.c: `config_parse` (Apply: the switch; Resolve: what follows it)
--   Filter          src/monitoring_filter.c
--   Pids            `parse_pid_path`, `parse_pid_list`, `parse_states`; `parse_user` is in Options/Resolve
--   Readers         src/monitoring_process.c: the command line, `io` and `status` of a process; Readers/Stat has
--                   its line of stat, Readers/Collect the start time and `process_collect`
--   Processes       src/monitoring_services_core.c: the list of processes and the previous samples
--   Metrics         src/monitoring_metrics.c
--   Scan            src/monitoring_services_core.c: `scan_processes`
--   Sort            src/monitoring_services_core.c: `compare_processes`, `sort_processes`
--   Alert           src/monitoring_alert.c
--   Log             src/monitoring_log.c: the static state `g_log` is the record `LogState`
--   Ui              src/monitoring_ui.c: raw mode and `ui_handle_key`
--   ProcessControl  src/monitoring_process_control.c
--   Targets         src/monitoring_targets.c: the list in memory, the bridge to the configuration, and
--                   the strings of the file (Targets/Json)
--   Output          src/monitoring_output.c: elapsed times, and the texts of the JSON and CSV output
--   Remote          src/monitoring_remote.c: the reader of CSV rows; Remote/Session splits the output of a
--                   session, Remote/Commands and Remote/Contact and Remote/Deploy run the commands,
--                   Remote/Hosts has the targets, Remote/Buffer the growing buffer
--   Main            src/monotoring_services.c: Main/Local, Main/Remote and Main/Capturing are the loops,
--                   Main/Filters `apply_local_filters`, Main/Program `main`
--   Capture         src/monitoring_capture.c: the load of the machine and the series of samples
-- Under each of them, one file for each group of theorems, and Tests with concrete runs; Examples has
-- the values that the tests share.
--
-- How the code is modelled. An array with its count is a list, a `char` array is the bytes before its
-- NUL, and a function that changes what a pointer points to returns the new value. A return value of -1
-- is `none` or `false`. Tests for NULL on an argument that stands for an object have no counterpart,
-- since the model has no absent objects; a pointer that the callers may leave NULL is an `Option`. An
-- `int` or `long` is an integer with its conversions written out; counters of 64 bits are natural
-- numbers. What the kernel, the C library and the allocator answer is an argument: the time, whether
-- memory can be had, `errno`, the entries of /proc, `qsort`. A hypothesis on such an argument says what
-- its documentation promises (`IsOrdered`, `IsScaling`, `QsortSorts`), and the tests meet it with
-- concrete functions: thousandths for `double`, and an insertion sort for `qsort`.
--
-- The loops of the program run over a list of rounds, each of which holds what one pass reads and the flag
-- `running` that the signal handler clears; a run that is not at its end when the list is, goes on. What a
-- run shows, logs and starts is a list of events in their order; an output holds the rows up to the limit. The result of `config_parse` tells a return
-- of -1 from a call of `exit`, and a copy of a remote host's output that is out of bounds is a result too.
--
-- Other loops are structural recursion; these run on fuel: the loop of `sort_processes` that reverses the
-- list, `filter_loop` and `last_loop`, for as many rounds as there are items or bytes, which is enough since
-- each round moves on by one; and the doubling of a buffer, for 64 rounds, after which 2 ^ 63 is passed.
--
-- The readers of /proc take what the files say as arguments; the scan takes `process_collect` as a
-- parameter, which `Readers.Collect.process_collect` fits.
--
-- Not modelled: the structure of the file of targets (`config_parse` takes its loading and saving as
-- parameters), the rows of the files of a capture and the
-- errors of the disk while they are written, which the code does not look at, and `run_command`, which forks and polls; the decimal text of
-- numbers, the texts of messages on stdout and stderr (also those that tell whether a file of a capture was
-- written), and terminal output; the Qt frontend.
mod Prelude
pub mod Text
pub mod Double
pub mod Types
pub mod Filter
pub mod Config
mod Examples
pub mod Alert
pub mod Log
pub mod Main
pub mod Processes
pub mod Metrics
pub mod Ui
pub mod ProcessControl
pub mod Sort
pub mod Pids
pub mod Scan
pub mod Targets
pub mod Output
pub mod Readers
pub mod Remote
pub mod Capture
pub mod Options
