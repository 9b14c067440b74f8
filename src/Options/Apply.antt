-- ===== src/Options/Apply.antt =====
-- src/monitoring_services_core.c: the switch of `config_parse` on one option. `strtod` is a parameter,
-- `copied` says of a text whether `strdup` succeeds, and `room` whether `realloc` does.
use application_monitoring.Prelude.{
  ℕ, [], ◌∷◌, Bool, true, not, ◌||◌, List, Option, none, some, leb, if◌then◌else◌, length,
}
use application_monitoring.Text.{Bytes, codes, copy_bounded, strcasecmp_eq, is_empty}
use application_monitoring.Text.Numbers.{strtol, strtoul, cast_int32}
use application_monitoring.Double.{Double}
use application_monitoring.Types.{
  NeoConfig, NeoSortMode, NeoProtocol, sort_cpu, sort_mem, sort_pid, sort_rss, sort_io_read,
  sort_io_write, protocol_local, protocol_ssh, protocol_telnet, protocol_ftp, protocol_tftp,
  max_patterns, max_host, max_user, max_remote_path, target_name_max,
}
use application_monitoring.Config.{min_interval, max_interval}
use application_monitoring.Log.{log_level_parse}
use application_monitoring.Processes.{append_pattern}
use application_monitoring.Pids.{parse_pid_list, parse_states}
use application_monitoring.Options.{
  Choice, Outcome, ◌>>=◌, ok, failed, exits, Explicit, ParseState, Strtod,
}
use application_monitoring.Options.{
  opt_interval, opt_long_args, opt_exclude, opt_pid, opt_ppid, opt_user, opt_state, opt_limit,
  opt_once, opt_batch, opt_reverse, opt_cpu, opt_mem, opt_cpu_threshold, opt_ram_mb,
  opt_ram_percent, opt_swap, opt_io, opt_threads, opt_start_time, opt_elapsed, opt_sort, opt_csv,
  opt_json, opt_no_color, opt_protocol, opt_host, opt_port, opt_identity, opt_password,
  opt_remote_bin, opt_local_file, opt_remote_file, opt_capture, opt_capture_output, opt_log_file,
  opt_log_level, opt_alert_cpu, opt_alert_mem, opt_alert_duration, opt_alert_notify,
  opt_alert_webhook, opt_target, opt_save_target, opt_delete_target, opt_list_targets,
  opt_targets_file, opt_help, opt_version, opt_unknown,
}

-- The ladder of --sort.
unfoldable pub sort_option : Bytes → Option NeoSortMode
unfolding strcasecmp_eq
sort_option optarg =
    if strcasecmp_eq optarg (codes "cpu")
    then some sort_cpu
    else if strcasecmp_eq optarg (codes "mem") || strcasecmp_eq optarg (codes "memory")
    then some sort_mem
    else if strcasecmp_eq optarg (codes "pid")
    then some sort_pid
    else if strcasecmp_eq optarg (codes "rss")
    then some sort_rss
    else if strcasecmp_eq optarg (codes "read")
    then some sort_io_read
    else if strcasecmp_eq optarg (codes "write")
    then some sort_io_write
    else none

-- The ladder of --protocol.
unfoldable pub protocol_option : Bytes → Option NeoProtocol
unfolding strcasecmp_eq
protocol_option optarg =
    if strcasecmp_eq optarg (codes "local")
    then some protocol_local
    else if strcasecmp_eq optarg (codes "ssh")
    then some protocol_ssh
    else if strcasecmp_eq optarg (codes "telnet")
    then some protocol_telnet
    else if strcasecmp_eq optarg (codes "ftp")
    then some protocol_ftp
    else if strcasecmp_eq optarg (codes "tftp")
    then some protocol_tftp
    else none

-- A text that is copied into a connection field, which is marked as given.
abbrev given : {D : Type 0} → ParseState D → NeoConfig D → Explicit → Outcome (ParseState D)
given s config explicit = ok (record s { config = config; explicit = explicit })

abbrev changed : {D : Type 0} → ParseState D → NeoConfig D → Outcome (ParseState D)
changed s config = ok (record s { config = config })

module _ {D : Type 0} (F : Double D) (strtod : Bytes → Strtod D) (copied : Bytes → Bool)
    (room : ℕ → Bool) where
  -- The argument of --capture, if it has one.
  unfoldable pub capture_option : Option Bytes → ParseState D → Outcome (ParseState D)
  capture_option none s =
      changed s (record s.config { capture_enabled = true; capture_duration_seconds = F.ratio 0 1 })
  capture_option (some optarg) s =
      let seconds = strtod optarg in
      if not seconds.found || not (is_empty seconds.rest) || F.le seconds.value (F.ratio 0 1)
      then failed
      else changed s
          (record s.config { capture_enabled = true; capture_duration_seconds = seconds.value })

  unfoldable pub apply_option : Choice → ParseState D → Outcome (ParseState D)
  unfolding capture_option copy_bounded strtol strtoul
  apply_option (opt_interval optarg) s =
      let interval = (strtod optarg).value in
      if F.lt interval (min_interval F) || F.lt (max_interval F) interval
      then failed
      else changed s (record s.config { interval = interval })
  apply_option (opt_exclude optarg) s =
      if leb max_patterns (length s.config.exclude_patterns)
      then failed
      else elim (append_pattern (copied optarg) room s.config.exclude_patterns optarg) [
        | none ↦ failed
        | some patterns ↦ changed s (record s.config { exclude_patterns = patterns })
      ]
  apply_option (opt_pid optarg) s =
      let parsed = parse_pid_list (copied optarg) room s.config.pids optarg in
      if parsed.1 then changed s (record s.config { pids = parsed.0 }) else failed
  apply_option (opt_ppid optarg) s =
      let parsed = parse_pid_list (copied optarg) room s.config.ppids optarg in
      if parsed.1 then changed s (record s.config { ppids = parsed.0 }) else failed
  apply_option (opt_user optarg) s = ok (record s {
    config = record s.config { remote_user = copy_bounded max_user optarg };
    user_arg = some optarg;
    explicit = record s.explicit { user_set = true };
  })
  apply_option (opt_state optarg) s =
      changed s (record s.config { states = parse_states s.config.states optarg })
  apply_option (opt_limit optarg) s = changed s (record s.config { limit = (strtoul optarg).value })
  apply_option opt_cpu s = changed s (record s.config { sort_mode = sort_cpu })
  apply_option opt_mem s = changed s (record s.config { sort_mode = sort_mem })
  apply_option (opt_sort optarg) s = elim (sort_option optarg) [
    | none ↦ failed
    | some mode ↦ changed s (record s.config { sort_mode = mode })
  ]
  apply_option opt_csv s = changed s (record s.config { csv = true; batch = true })
  apply_option opt_json s = changed s (record s.config { json = true; batch = true })
  apply_option (opt_protocol optarg) s = elim (protocol_option optarg) [
    | none ↦ failed
    | some protocol ↦
        given s (record s.config { protocol = protocol })
          (record s.explicit { protocol_set = true })
  ]
  apply_option (opt_port optarg) s =
      given s (record s.config { remote_port = cast_int32 (strtol optarg).value })
        (record s.explicit { port_set = true })
  apply_option (opt_capture optarg) s = capture_option optarg s
  apply_option (opt_log_level optarg) s = elim (log_level_parse optarg) [
    | none ↦ failed
    | some level ↦ changed s (record s.config { log_level = level })
  ]
  apply_option (opt_alert_duration optarg) s =
      let seconds = (strtod optarg).value in
      if F.lt seconds (F.ratio 0 1)
      then failed
      else changed s (record s.config { alert_sustain_seconds = seconds })
  apply_option opt_long_args s = changed s (record s.config { show_long_args = true })
  apply_option opt_once s = changed s (record s.config { once = true })
  apply_option opt_batch s = changed s (record s.config { batch = true })
  apply_option opt_reverse s = changed s (record s.config { reverse = true })
  apply_option opt_swap s = changed s (record s.config { show_swap = true })
  apply_option opt_io s = changed s (record s.config { show_io = true })
  apply_option opt_threads s = changed s (record s.config { show_threads = true })
  apply_option opt_start_time s = changed s (record s.config { show_start_time = true })
  apply_option opt_elapsed s = changed s (record s.config { show_elapsed = true })
  apply_option opt_no_color s = changed s (record s.config { no_color = true })
  apply_option opt_alert_notify s = changed s (record s.config { alert_notify = true })
  apply_option opt_list_targets s = changed s (record s.config { list_targets = true })
  apply_option (opt_cpu_threshold optarg) s =
      changed s (record s.config { cpu_threshold = (strtod optarg).value })
  apply_option (opt_ram_mb optarg) s =
      changed s (record s.config { ram_threshold_mb = (strtod optarg).value })
  apply_option (opt_ram_percent optarg) s =
      changed s (record s.config { ram_threshold_percent = (strtod optarg).value })
  apply_option (opt_alert_cpu optarg) s =
      changed s (record s.config { alert_cpu_percent = (strtod optarg).value })
  apply_option (opt_alert_mem optarg) s =
      changed s (record s.config { alert_mem_percent = (strtod optarg).value })
  apply_option (opt_host optarg) s =
      given s (record s.config { remote_host = copy_bounded max_host optarg })
        (record s.explicit { host_set = true })
  apply_option (opt_identity optarg) s =
      given s (record s.config { remote_identity = copy_bounded max_remote_path optarg })
        (record s.explicit { identity_set = true })
  apply_option (opt_password optarg) s =
      given s (record s.config { remote_password = copy_bounded max_user optarg })
        (record s.explicit { password_set = true })
  apply_option (opt_remote_bin optarg) s =
      given s (record s.config { remote_binary = copy_bounded max_remote_path optarg })
        (record s.explicit { remote_bin_set = true })
  apply_option (opt_remote_file optarg) s =
      given s (record s.config { remote_file = copy_bounded max_remote_path optarg })
        (record s.explicit { remote_file_set = true })
  apply_option (opt_local_file optarg) s =
      changed s (record s.config { local_file = copy_bounded max_remote_path optarg })
  apply_option (opt_capture_output optarg) s =
      changed s (record s.config { capture_output = copy_bounded max_remote_path optarg })
  apply_option (opt_log_file optarg) s =
      changed s (record s.config { log_file = copy_bounded max_remote_path optarg })
  apply_option (opt_alert_webhook optarg) s =
      changed s (record s.config { alert_webhook = copy_bounded max_remote_path optarg })
  apply_option (opt_target optarg) s =
      changed s (record s.config { target_name = copy_bounded target_name_max optarg })
  apply_option (opt_save_target optarg) s =
      changed s (record s.config { save_target_name = copy_bounded target_name_max optarg })
  apply_option (opt_delete_target optarg) s =
      changed s (record s.config { delete_target_name = copy_bounded target_name_max optarg })
  apply_option (opt_targets_file optarg) s =
      changed s (record s.config { targets_file = copy_bounded max_remote_path optarg })
  apply_option opt_help s = exits 0 none
  apply_option opt_version s = exits 0 none
  apply_option opt_unknown s = failed

  -- The loop over the options.
  unfoldable pub apply_options : List Choice → ParseState D → Outcome (ParseState D)
  apply_options [] s = ok s
  apply_options (choice ∷ choices) s = apply_option choice s >>= apply_options choices
