-- ===== src/Options/Bounds.antt =====
-- What holds of every configuration that `config_parse` accepts.
use application_monitoring.Prelude.{
  ℕ, ◌≤◌, ◌<◌, ◌≡◌, ◌⊎◌, inr, refl, Bool, true, false, not, ◌||◌, List, [], ◌∷◌, ◌++◌, Option, none,
  some, arith, leb, length, length-append,
}
use application_monitoring.Text.{Bytes, copy_bounded-lt, is_empty}
use application_monitoring.Double.{Double}
use application_monitoring.Types.{
  NeoConfig, max_patterns, max_host, max_user, max_remote_path, target_name_max,
}
use application_monitoring.Config.{min_interval, max_interval}
use application_monitoring.Processes.{append_pattern}
use application_monitoring.Log.{log_level_parse}
use application_monitoring.Pids.{parse_pid_list}
use application_monitoring.Pids.States.{IsFilter, parse_states-IsFilter}
use application_monitoring.Options.{
  Choice, Ensures, Ensures-unless, Ensures-when, Ensures-some, Ensures->>=, Outcome, ParseState,
  Strtod,
}
use application_monitoring.Options.{
  opt_interval, opt_long_args, opt_exclude, opt_pid, opt_ppid, opt_user, opt_state, opt_limit,
  opt_once, opt_batch, opt_reverse, opt_cpu, opt_mem, opt_cpu_threshold, opt_ram_mb,
  opt_ram_percent, opt_swap, opt_io, opt_threads, opt_start_time, opt_elapsed, opt_sort, opt_csv,
  opt_json, opt_no_color, opt_protocol, opt_host, opt_port, opt_identity, opt_password,
  opt_remote_bin, opt_local_file, opt_remote_file, opt_capture, opt_capture_output, opt_log_file,
  opt_log_level, opt_alert_cpu, opt_alert_mem, opt_alert_duration, opt_alert_notify,
  opt_alert_webhook, opt_target, opt_save_target, opt_delete_target, opt_list_targets,
  opt_targets_file, opt_help, opt_version, opt_unknown,
}
use application_monitoring.Options.Apply.{
  sort_option, protocol_option, apply_option, apply_options, capture_option,
}

module _ {D : Type 0} (F : Double D) where
  -- The interval is not outside of its range, and an alert's duration is not negative.
  abbrev pub TimesFit : NeoConfig D → Type 0
  TimesFit config =
      (F.lt config.interval (min_interval F) ≡ false)
      × (F.lt (max_interval F) config.interval ≡ false)
      × (F.lt config.alert_sustain_seconds (F.ratio 0 1) ≡ false)

  -- No more than 128 patterns of each kind, and a state filter that fits its array.
  abbrev pub ArraysFit : NeoConfig D → Type 0
  ArraysFit config =
      (length config.patterns ≤ max_patterns)
      × (length config.exclude_patterns ≤ max_patterns)
      × IsFilter config.states

  -- Every text of the connection fits its array, with its NUL.
  abbrev pub ConnectionFits : NeoConfig D → Type 0
  ConnectionFits config =
      (length config.remote_host < max_host)
      × (length config.remote_user < max_user)
      × (length config.remote_password < max_user)
      × (length config.remote_identity < max_remote_path)
      × (length config.remote_binary < max_remote_path)
      × (length config.remote_file < max_remote_path)

  -- And so do the names of files and targets.
  abbrev pub NamesFit : NeoConfig D → Type 0
  NamesFit config =
      (length config.local_file < max_remote_path)
      × (length config.capture_output < max_remote_path)
      × (length config.log_file < max_remote_path)
      × (length config.alert_webhook < max_remote_path)
      × (length config.target_name < target_name_max)
      × (length config.save_target_name < target_name_max)
      × (length config.delete_target_name < target_name_max)
      × (length config.targets_file < max_remote_path)

  -- Output for machines is never interactive.
  abbrev pub MachineIsBatch : NeoConfig D → Type 0
  MachineIsBatch config = (config.csv || config.json ≡ false) ⊎ (config.batch ≡ true)

  -- The name of the account whose processes are asked for fits its array.
  abbrev pub UserFits : NeoConfig D → Type 0
  UserFits config = length config.filter_user < max_user

  abbrev pub InBounds : NeoConfig D → Type 0
  InBounds config =
      TimesFit config
      × ArraysFit config
      × ConnectionFits config
      × NamesFit config
      × (MachineIsBatch config × UserFits config)

pub append_pattern-le :
    (copied : Bool) (room : ℕ → Bool) (array : List Bytes) (pattern : Bytes) {array' : List Bytes}
    → leb max_patterns (length array) ≡ false
    → append_pattern copied room array pattern ≡ some array'
    → length array' ≤ max_patterns
unfolding append_pattern
append_pattern-le copied room array pattern {array'} full h =
    let e : array' ≡ array ++ pattern ∷ [] = ground (arith, h) in
    rw e (ground (arith, full, length-append array (pattern ∷ [])))

module _ {D : Type 0} (F : Double D) (strtod : Bytes → Strtod D) (copied : Bytes → Bool)
    (room : ℕ → Bool) where
  abbrev pub Kept : Outcome (ParseState D) → Type 0
  Kept = Ensures (λ s. InBounds F s.config)

  capture_option-InBounds :
      (optarg : Option Bytes) (s : ParseState D)
      → InBounds F s.config
      → Kept (capture_option F strtod copied room optarg s)
  unfolding capture_option
  capture_option-InBounds none s h = h
  capture_option-InBounds (some optarg) s h =
      let seconds = strtod optarg in
      Ensures-unless _
        (not seconds.found || not (is_empty seconds.rest) || F.le seconds.value (F.ratio 0 1)) _
        (λ e. h)

  apply_option-InBounds :
      (choice : Choice) (s : ParseState D)
      → InBounds F s.config
      → Kept (apply_option F strtod copied room choice s)
  unfolding apply_option
  apply_option-InBounds (opt_interval optarg) s ((low, high, d), arrays, conn, names, b) =
      let seconds = (strtod optarg).value in
      Ensures-unless _ (F.lt seconds (min_interval F) || F.lt (max_interval F) seconds) _
        (λ e. ((ground (arith, e), ground (arith, e), d), arrays, conn, names, b))
  apply_option-InBounds opt_long_args s h = h
  apply_option-InBounds (opt_exclude optarg) s (times, (p, e, f), conn, names, b) =
      Ensures-unless _ (leb max_patterns (length s.config.exclude_patterns)) _ (λ full.
        Ensures-some _ (append_pattern (copied optarg) room s.config.exclude_patterns optarg) _
          (λ patterns g. (
            times,
            (p, append_pattern-le _ room s.config.exclude_patterns optarg full g, f),
            conn,
            names,
            b,
          )))
  apply_option-InBounds (opt_pid optarg) s h =
      Ensures-when _ (parse_pid_list (copied optarg) room s.config.pids optarg).1 _ (λ e. h)
  apply_option-InBounds (opt_ppid optarg) s h =
      Ensures-when _ (parse_pid_list (copied optarg) room s.config.ppids optarg).1 _ (λ e. h)
  apply_option-InBounds (opt_user optarg) s (times, arrays, (x0, x1, x2, x3, x4, x5), names, b) =
      (times, arrays, (x0, copy_bounded-lt max_user optarg (omega arith), x2, x3, x4, x5), names, b)
  apply_option-InBounds (opt_state optarg) s (times, (p, e, f), conn, names, b) =
      (times, (p, e, parse_states-IsFilter s.config.states optarg f), conn, names, b)
  apply_option-InBounds (opt_limit optarg) s h = h
  apply_option-InBounds opt_once s h = h
  apply_option-InBounds opt_batch s (times, arrays, conn, names, (b, user)) =
      (times, arrays, conn, names, (inr refl, user))
  apply_option-InBounds opt_reverse s h = h
  apply_option-InBounds opt_cpu s h = h
  apply_option-InBounds opt_mem s h = h
  apply_option-InBounds (opt_cpu_threshold optarg) s h = h
  apply_option-InBounds (opt_ram_mb optarg) s h = h
  apply_option-InBounds (opt_ram_percent optarg) s h = h
  apply_option-InBounds opt_swap s h = h
  apply_option-InBounds opt_io s h = h
  apply_option-InBounds opt_threads s h = h
  apply_option-InBounds opt_start_time s h = h
  apply_option-InBounds opt_elapsed s h = h
  apply_option-InBounds (opt_sort optarg) s h = Ensures-some _ (sort_option optarg) _ (λ mode e. h)
  apply_option-InBounds opt_csv s (times, arrays, conn, names, (b, user)) =
      (times, arrays, conn, names, (inr refl, user))
  apply_option-InBounds opt_json s (times, arrays, conn, names, (b, user)) =
      (times, arrays, conn, names, (inr refl, user))
  apply_option-InBounds opt_no_color s h = h
  apply_option-InBounds (opt_protocol optarg) s h =
      Ensures-some _ (protocol_option optarg) _ (λ protocol e. h)
  apply_option-InBounds (opt_host optarg) s (times, arrays, (x0, x1, x2, x3, x4, x5), names, b) =
      (times, arrays, (copy_bounded-lt max_host optarg (omega arith), x1, x2, x3, x4, x5), names, b)
  apply_option-InBounds (opt_port optarg) s h = h
  apply_option-InBounds (opt_identity optarg) s
        (times, arrays, (x0, x1, x2, x3, x4, x5), names, b) =
      (
        times,
        arrays,
        (x0, x1, x2, copy_bounded-lt max_remote_path optarg (omega arith), x4, x5),
        names,
        b,
      )
  apply_option-InBounds (opt_password optarg) s
        (times, arrays, (x0, x1, x2, x3, x4, x5), names, b) =
      (times, arrays, (x0, x1, copy_bounded-lt max_user optarg (omega arith), x3, x4, x5), names, b)
  apply_option-InBounds (opt_remote_bin optarg) s
        (times, arrays, (x0, x1, x2, x3, x4, x5), names, b) =
      (
        times,
        arrays,
        (x0, x1, x2, x3, copy_bounded-lt max_remote_path optarg (omega arith), x5),
        names,
        b,
      )
  apply_option-InBounds (opt_local_file optarg) s
        (times, arrays, conn, (x0, x1, x2, x3, x4, x5, x6, x7), b) =
      (
        times,
        arrays,
        conn,
        (copy_bounded-lt max_remote_path optarg (omega arith), x1, x2, x3, x4, x5, x6, x7),
        b,
      )
  apply_option-InBounds (opt_remote_file optarg) s
        (times, arrays, (x0, x1, x2, x3, x4, x5), names, b) =
      (
        times,
        arrays,
        (x0, x1, x2, x3, x4, copy_bounded-lt max_remote_path optarg (omega arith)),
        names,
        b,
      )
  apply_option-InBounds (opt_capture optarg) s h = capture_option-InBounds optarg s h
  apply_option-InBounds (opt_capture_output optarg) s
        (times, arrays, conn, (x0, x1, x2, x3, x4, x5, x6, x7), b) =
      (
        times,
        arrays,
        conn,
        (x0, copy_bounded-lt max_remote_path optarg (omega arith), x2, x3, x4, x5, x6, x7),
        b,
      )
  apply_option-InBounds (opt_log_file optarg) s
        (times, arrays, conn, (x0, x1, x2, x3, x4, x5, x6, x7), b) =
      (
        times,
        arrays,
        conn,
        (x0, x1, copy_bounded-lt max_remote_path optarg (omega arith), x3, x4, x5, x6, x7),
        b,
      )
  apply_option-InBounds (opt_log_level optarg) s h =
      Ensures-some _ (log_level_parse optarg) _ (λ level e. h)
  apply_option-InBounds (opt_alert_cpu optarg) s h = h
  apply_option-InBounds (opt_alert_mem optarg) s h = h
  apply_option-InBounds (opt_alert_duration optarg) s ((low, high, d), arrays, conn, names, b) =
      Ensures-unless _ (F.lt (strtod optarg).value (F.ratio 0 1)) _
        (λ e. ((low, high, e), arrays, conn, names, b))
  apply_option-InBounds opt_alert_notify s h = h
  apply_option-InBounds (opt_alert_webhook optarg) s
        (times, arrays, conn, (x0, x1, x2, x3, x4, x5, x6, x7), b) =
      (
        times,
        arrays,
        conn,
        (x0, x1, x2, copy_bounded-lt max_remote_path optarg (omega arith), x4, x5, x6, x7),
        b,
      )
  apply_option-InBounds (opt_target optarg) s
        (times, arrays, conn, (x0, x1, x2, x3, x4, x5, x6, x7), b) =
      (
        times,
        arrays,
        conn,
        (x0, x1, x2, x3, copy_bounded-lt target_name_max optarg (omega arith), x5, x6, x7),
        b,
      )
  apply_option-InBounds (opt_save_target optarg) s
        (times, arrays, conn, (x0, x1, x2, x3, x4, x5, x6, x7), b) =
      (
        times,
        arrays,
        conn,
        (x0, x1, x2, x3, x4, copy_bounded-lt target_name_max optarg (omega arith), x6, x7),
        b,
      )
  apply_option-InBounds (opt_delete_target optarg) s
        (times, arrays, conn, (x0, x1, x2, x3, x4, x5, x6, x7), b) =
      (
        times,
        arrays,
        conn,
        (x0, x1, x2, x3, x4, x5, copy_bounded-lt target_name_max optarg (omega arith), x7),
        b,
      )
  apply_option-InBounds opt_list_targets s h = h
  apply_option-InBounds (opt_targets_file optarg) s
        (times, arrays, conn, (x0, x1, x2, x3, x4, x5, x6, x7), b) =
      (
        times,
        arrays,
        conn,
        (x0, x1, x2, x3, x4, x5, x6, copy_bounded-lt max_remote_path optarg (omega arith)),
        b,
      )
  apply_option-InBounds opt_help s h = tt
  apply_option-InBounds opt_version s h = tt
  apply_option-InBounds opt_unknown s h = tt

  pub apply_options-InBounds :
      (choices : List Choice) (s : ParseState D)
      → InBounds F s.config
      → Kept (apply_options F strtod copied room choices s)
  unfolding apply_options
  apply_options-InBounds [] s h = h
  apply_options-InBounds (choice ∷ choices) s h =
      Ensures->>= (λ t. InBounds F t.config) (λ t. InBounds F t.config)
        (apply_option F strtod copied room choice s) (apply_options F strtod copied room choices)
        (apply_option-InBounds choice s h) (λ t k. apply_options-InBounds choices t k)
