-- ===== src/Options/Precedence.antt =====
-- An option on the command line wins over a saved target, in whatever order they are given.
use application_monitoring.Prelude.{
  ℕ, ◌≡◌, refl, ◌∙◌, ap, Bool, true, false, not, ◌||◌, List, [], ◌∷◌, Option, none, some, leb,
  length,
}
use application_monitoring.Text.{Bytes, is_empty}
use application_monitoring.Double.{Double}
use application_monitoring.Types.{max_patterns}
use application_monitoring.Config.{min_interval, max_interval}
use application_monitoring.Log.{log_level_parse}
use application_monitoring.Processes.{append_pattern}
use application_monitoring.Pids.{parse_pid_list}
use application_monitoring.Options.{
  Choice, Ensures, Ensures-unless, Ensures-when, Ensures-some, Ensures->>=, Ensures-map, Explicit,
  ParseState, Strtod,
}
use application_monitoring.Options.{
  opt_interval, opt_long_args, opt_exclude, opt_pid, opt_ppid, opt_user, opt_state, opt_limit,
  opt_once, opt_batch, opt_reverse, opt_cpu, opt_mem, opt_cpu_threshold, opt_ram_mb,
  opt_ram_percent, opt_swap, opt_io, opt_threads, opt_start_time, opt_elapsed, opt_sort, opt_csv,
  opt_json, opt_no_color, opt_protocol, opt_host, opt_port, opt_identity, opt_password,
  opt_remote_bin, opt_local_file, opt_remote_file, opt_capture, opt_capture_output, opt_log_file,
  opt_log_level, opt_alert_cpu, opt_alert_mem, opt_alert_duration, opt_alert_notify,
  opt_alert_webhook, opt_target, opt_save_target, opt_delete_target, opt_list_targets,
  opt_targets_file, opt_help, opt_version, opt_unknown,
}
use application_monitoring.Options.Apply.{
  sort_option, protocol_option, apply_option, apply_options, capture_option,
}
use application_monitoring.Options.Connection.{
  or_else, or, last, Connection, connection_of, preferred, protocol_arg, host_arg, user_arg,
  password_arg, port_arg, identity_arg, remote_bin_arg, remote_file_arg,
}

abbrev pub is_given : {A : Type 0} → Option A → Bool
is_given none = false
is_given (some a) = true

module _ {A : Type 0} where
  or_else-or : (m n : Option A) (a : A) → or_else (or m n) a ≡ or_else m (or_else n a)
  or_else-or none n a = refl
  or_else-or (some b) n a = refl

  is_given-or :
      (m n : Option A) (b : Bool) → is_given (or m n) || b ≡ is_given m || (is_given n || b)
  is_given-or none n b = refl
  is_given-or (some a) n b = refl

-- The flags after some options.
abbrev pub flagged : List Choice → Explicit → Explicit
flagged choices explicit = record {
  protocol_set = is_given (last protocol_arg choices) || explicit.protocol_set;
  host_set = is_given (last host_arg choices) || explicit.host_set;
  user_set = is_given (last user_arg choices) || explicit.user_set;
  password_set = is_given (last password_arg choices) || explicit.password_set;
  port_set = is_given (last port_arg choices) || explicit.port_set;
  identity_set = is_given (last identity_arg choices) || explicit.identity_set;
  remote_bin_set = is_given (last remote_bin_arg choices) || explicit.remote_bin_set;
  remote_file_set = is_given (last remote_file_arg choices) || explicit.remote_file_set;
}

-- What options do to the connection and its flags.
abbrev pub Follows : {D : Type 0} → List Choice → ParseState D → ParseState D → Type 0
Follows choices s s' =
    (connection_of s'.config ≡ preferred choices (connection_of s.config))
    × (s'.explicit ≡ flagged choices s.explicit)

preferred-cons :
    (choice : Choice) (choices : List Choice) (start : Connection)
    → preferred choices (preferred (choice ∷ []) start) ≡ preferred (choice ∷ choices) start
unfolding last
preferred-cons choice choices start = simp or_else-or

flagged-cons :
    (choice : Choice) (choices : List Choice) (explicit : Explicit)
    → flagged choices (flagged (choice ∷ []) explicit) ≡ flagged (choice ∷ choices) explicit
unfolding last
flagged-cons choice choices explicit = simp is_given-or

Follows-trans :
    {D : Type 0} (choice : Choice) (choices : List Choice) (s t : ParseState D)
    → Follows (choice ∷ []) s t
    → (u : ParseState D) → Follows choices t u
    → Follows (choice ∷ choices) s u
unfolding last
Follows-trans choice choices s t (c, f) u (c', f') = (
  c' ∙ ap (preferred choices) c ∙ preferred-cons choice choices (connection_of s.config),
  f' ∙ ap (flagged choices) f ∙ flagged-cons choice choices s.explicit,
)

module _ {D : Type 0} (F : Double D) (strtod : Bytes → Strtod D) (copied : Bytes → Bool)
    (room : ℕ → Bool) where
  apply_option-Follows :
      (choice : Choice) (s : ParseState D)
      → Ensures (Follows (choice ∷ []) s) (apply_option F strtod copied room choice s)
  unfolding apply_option capture_option last
  apply_option-Follows (opt_interval optarg) s =
      Ensures-unless _
        (F.lt (strtod optarg).value (min_interval F) || F.lt (max_interval F) (strtod optarg).value)
        _ (λ e. (refl, refl))
  apply_option-Follows opt_long_args s = (refl, refl)
  apply_option-Follows (opt_exclude optarg) s =
      Ensures-unless _ (leb max_patterns (length s.config.exclude_patterns)) _ (λ full.
        Ensures-some _ (append_pattern (copied optarg) room s.config.exclude_patterns optarg) _
          (λ patterns g. (refl, refl)))
  apply_option-Follows (opt_pid optarg) s =
      Ensures-when _ (parse_pid_list (copied optarg) room s.config.pids optarg).1 _
        (λ e. (refl, refl))
  apply_option-Follows (opt_ppid optarg) s =
      Ensures-when _ (parse_pid_list (copied optarg) room s.config.ppids optarg).1 _
        (λ e. (refl, refl))
  apply_option-Follows (opt_user optarg) s = (refl, refl)
  apply_option-Follows (opt_state optarg) s = (refl, refl)
  apply_option-Follows (opt_limit optarg) s = (refl, refl)
  apply_option-Follows opt_once s = (refl, refl)
  apply_option-Follows opt_batch s = (refl, refl)
  apply_option-Follows opt_reverse s = (refl, refl)
  apply_option-Follows opt_cpu s = (refl, refl)
  apply_option-Follows opt_mem s = (refl, refl)
  apply_option-Follows (opt_cpu_threshold optarg) s = (refl, refl)
  apply_option-Follows (opt_ram_mb optarg) s = (refl, refl)
  apply_option-Follows (opt_ram_percent optarg) s = (refl, refl)
  apply_option-Follows opt_swap s = (refl, refl)
  apply_option-Follows opt_io s = (refl, refl)
  apply_option-Follows opt_threads s = (refl, refl)
  apply_option-Follows opt_start_time s = (refl, refl)
  apply_option-Follows opt_elapsed s = (refl, refl)
  apply_option-Follows (opt_sort optarg) s =
      Ensures-some _ (sort_option optarg) _ (λ mode e. (refl, refl))
  apply_option-Follows opt_csv s = (refl, refl)
  apply_option-Follows opt_json s = (refl, refl)
  apply_option-Follows opt_no_color s = (refl, refl)
  apply_option-Follows (opt_protocol optarg) s =
      Ensures-some _ (protocol_option optarg) _ (λ protocol e. rw e (refl, refl))
  apply_option-Follows (opt_host optarg) s = (refl, refl)
  apply_option-Follows (opt_port optarg) s = (refl, refl)
  apply_option-Follows (opt_identity optarg) s = (refl, refl)
  apply_option-Follows (opt_password optarg) s = (refl, refl)
  apply_option-Follows (opt_remote_bin optarg) s = (refl, refl)
  apply_option-Follows (opt_local_file optarg) s = (refl, refl)
  apply_option-Follows (opt_remote_file optarg) s = (refl, refl)
  apply_option-Follows (opt_capture none) s = (refl, refl)
  apply_option-Follows (opt_capture (some optarg)) s =
      let seconds = strtod optarg in
      Ensures-unless _
        (not seconds.found || not (is_empty seconds.rest) || F.le seconds.value (F.ratio 0 1)) _
        (λ e. (refl, refl))
  apply_option-Follows (opt_capture_output optarg) s = (refl, refl)
  apply_option-Follows (opt_log_file optarg) s = (refl, refl)
  apply_option-Follows (opt_log_level optarg) s =
      Ensures-some _ (log_level_parse optarg) _ (λ level e. (refl, refl))
  apply_option-Follows (opt_alert_cpu optarg) s = (refl, refl)
  apply_option-Follows (opt_alert_mem optarg) s = (refl, refl)
  apply_option-Follows (opt_alert_duration optarg) s =
      Ensures-unless _ (F.lt (strtod optarg).value (F.ratio 0 1)) _ (λ e. (refl, refl))
  apply_option-Follows opt_alert_notify s = (refl, refl)
  apply_option-Follows (opt_alert_webhook optarg) s = (refl, refl)
  apply_option-Follows (opt_target optarg) s = (refl, refl)
  apply_option-Follows (opt_save_target optarg) s = (refl, refl)
  apply_option-Follows (opt_delete_target optarg) s = (refl, refl)
  apply_option-Follows opt_list_targets s = (refl, refl)
  apply_option-Follows (opt_targets_file optarg) s = (refl, refl)
  apply_option-Follows opt_help s = tt
  apply_option-Follows opt_version s = tt
  apply_option-Follows opt_unknown s = tt

  pub apply_options-Follows :
      (choices : List Choice) (s : ParseState D)
      → Ensures (Follows choices s) (apply_options F strtod copied room choices s)
  unfolding apply_options last
  apply_options-Follows [] s = (refl, refl)
  apply_options-Follows (choice ∷ choices) s =
      Ensures->>= (Follows (choice ∷ choices) s) (Follows (choice ∷ []) s)
        (apply_option F strtod copied room choice s) (apply_options F strtod copied room choices)
        (apply_option-Follows choice s)
        (λ t h.
          Ensures-map _ _ (apply_options F strtod copied room choices t)
            (Follows-trans choice choices s t h) (apply_options-Follows choices t))
