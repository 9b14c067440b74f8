-- ===== src/Log/Tests.antt =====
-- The log on concrete calls.
use application_monitoring.Prelude.{pos, ◌≡◌, refl, List, [], ◌∷◌, reverse, take, min}
use application_monitoring.Text.{codes}
use application_monitoring.Types.{log_error, log_info, log_debug}
use application_monitoring.Log.{
  NeoLogSinkSlot, g_log, log_history_capacity, log_copy_recent, log_add_sink, log_remove_sink,
}
use application_monitoring.Log.Recent.{LogCall, write, run, accepted, log_copy_recent-run}
use application_monitoring.Log.Sinks.{registered, log_remove_sink-log_add_sink}

-- The debug entry is below the threshold, which is `info` by default.
abbrev three_writes : List LogCall
three_writes =
    write (pos 3) log_error (codes "disk")
    ∷ write (pos 2) log_debug (codes "poll")
    ∷ write (pos 1) log_info (codes "start")
    ∷ []

log_copy_recent-run_example :
    log_copy_recent 10 (run three_writes)
    ≡ reverse (take (min 10 log_history_capacity) (accepted three_writes))
log_copy_recent-run_example = log_copy_recent-run three_writes 10

abbrev pane : NeoLogSinkSlot
pane = record { sink = 4096; user_data = 1 }

log_remove_sink-log_add_sink_example : log_remove_sink pane (log_add_sink pane g_log).0 ≡ g_log
unfolding registered log_add_sink
log_remove_sink-log_add_sink_example = log_remove_sink-log_add_sink pane g_log (λ a. absurd a) refl
