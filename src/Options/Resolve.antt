-- ===== src/Options/Resolve.antt =====
-- src/monitoring_services_core.c: what `config_parse` does once the options are read. `load` is
-- `targets_load` at a path (empty for the default one), `save` says whether `targets_save` succeeds,
-- and `getpwnam` gives the UID of an account.
use application_monitoring.Prelude.{
  ℕ, ◌%◌, ◌^◌, Bool, true, false, not, ◌||◌, ◌&&◌, List, [], ◌∷◌, Option, none, some, leb,
  if◌then◌else◌, length,
}
use application_monitoring.Text.{Bytes, copy_bounded, is_empty}
use application_monitoring.Text.Numbers.{strtoul}
use application_monitoring.Double.{Double}
use application_monitoring.Types.{
  NeoConfig, NeoProtocol, protocol_local, protocol_ssh, protocol_telnet, protocol_ftp,
  protocol_tftp, max_patterns, max_host, max_user, max_remote_path,
}
use application_monitoring.Processes.{append_pattern}
use application_monitoring.Targets.{
  NeoTarget, NeoTargetList, target_list_find, target_list_remove, target_list_upsert,
  target_from_config,
}
use application_monitoring.Options.{
  Choice, Outcome, ok, failed, exits, ◌>>=◌, Explicit, nothing_explicit, ParseState, Strtod,
}
use application_monitoring.Options.Apply.{apply_options}

abbrev pub is_local : NeoProtocol → Bool
is_local protocol_local = true
is_local protocol_ssh = false
is_local protocol_telnet = false
is_local protocol_ftp = false
is_local protocol_tftp = false

module _ {D : Type 0} where
  unfoldable pub parse_user : (Bytes → Option ℕ) → NeoConfig D → Bytes → Option (NeoConfig D)
  unfolding strtoul copy_bounded
  parse_user getpwnam config value =
      let uid = strtoul value in
      if not uid.erange && uid.found && is_empty uid.rest
      then some (record config { filter_uid = uid.value % 2 ^ 32; filter_uid_enabled = true })
      else elim (getpwnam value) [
        | none ↦ none
        | some pw_uid ↦ some (record config {
          filter_uid = pw_uid;
          filter_uid_enabled = true;
          filter_user = copy_bounded max_user value;
          filter_user_enabled = true;
        })
      ]

  -- --list-targets and --delete-target end the program.
  unfoldable pub targets_command :
      (Bytes → Option NeoTargetList) → (NeoTargetList → Bool) → NeoConfig D → Outcome (NeoConfig D)
  targets_command load save config =
      if config.list_targets || not (is_empty config.delete_target_name)
      then elim (load config.targets_file) [
        | none ↦ exits 1 none
        | some list ↦
            if is_empty config.delete_target_name
            then exits 0 none
            else elim (target_list_remove list config.delete_target_name) [
              | none ↦ exits 1 none
              | some rest ↦ if save rest then exits 0 (some rest) else exits 1 none
            ]
      ]
      else ok config

  -- A connection field is taken from the target unless it was given.
  unfoldable pub with_target : NeoTarget → Explicit → NeoConfig D → NeoConfig D
  unfolding copy_bounded
  with_target target explicit config = record config {
    protocol = if explicit.protocol_set then config.protocol else target.protocol;
    remote_host =
        if explicit.host_set then config.remote_host else copy_bounded max_host target.host;
    remote_user =
        if explicit.user_set then config.remote_user else copy_bounded max_user target.user;
    remote_password =
        if explicit.password_set
        then config.remote_password
        else copy_bounded max_user target.password;
    remote_port = if explicit.port_set then config.remote_port else target.port;
    remote_identity =
        if explicit.identity_set
        then config.remote_identity
        else copy_bounded max_remote_path target.identity;
    remote_binary =
        if explicit.remote_bin_set
        then config.remote_binary
        else copy_bounded max_remote_path target.remote_bin;
    remote_file =
        if explicit.remote_file_set
        then config.remote_file
        else copy_bounded max_remote_path target.remote_file;
  }

  -- --target
  unfoldable pub apply_target :
      (Bytes → Option NeoTargetList) → Explicit → NeoConfig D → Outcome (NeoConfig D)
  apply_target load explicit config =
      if is_empty config.target_name then ok config else elim (load config.targets_file) [
        | none ↦ failed
        | some list ↦ elim (target_list_find list config.target_name) [
          | none ↦ failed
          | some target ↦ ok (with_target target explicit config)
        ]
      ]

  -- The loop over the arguments that are left.
  unfoldable pub add_patterns :
      (Bytes → Bool) → (ℕ → Bool) → List Bytes → NeoConfig D → Outcome (NeoConfig D)
  add_patterns copied room [] config = ok config
  add_patterns copied room (argument ∷ arguments) config =
      elim (leb max_patterns (length config.patterns)) [
        | true ↦ failed
        | false ↦ elim (append_pattern (copied argument) room config.patterns argument) [
          | none ↦ failed
          | some patterns ↦
              add_patterns copied room arguments (record config { patterns = patterns })
        ]
      ]

  -- JSON and CSV imply --batch.
  abbrev pub imply_batch : NeoConfig D → NeoConfig D
  imply_batch config = record config {
    batch = if config.csv || config.json then true else config.batch;
  }

  -- --user, where it is a filter.
  unfoldable pub resolve_user :
      (Bytes → Option ℕ) → Option Bytes → NeoConfig D → Outcome (NeoConfig D)
  resolve_user getpwnam none config = ok config
  resolve_user getpwnam (some user_arg) config =
      if is_local config.protocol
      then elim (parse_user getpwnam config user_arg) [ none ↦ failed | some config' ↦ ok config' ]
      else ok config

  -- --save-target; the result carries the list that was written.
  unfoldable pub save_target :
      (Bytes → Option NeoTargetList)
      → (NeoTargetList → Bool)
      → (ℕ → Bool)
      → NeoConfig D
      → Outcome (NeoConfig D × Option NeoTargetList)
  save_target load save room config =
      if is_empty config.save_target_name
      then ok (config, none)
      else if is_local config.protocol
      then failed
      else elim (load config.targets_file) [
        | none ↦ failed
        | some list ↦
            elim (target_list_upsert room list
              (target_from_config config (some config.save_target_name))) [
                | none ↦ failed
                | some list' ↦ if save list' then ok (config, some list') else failed
              ]
      ]

module _ {D : Type 0} (F : Double D) (strtod : Bytes → Strtod D) (copied : Bytes → Bool)
    (room : ℕ → Bool) (load : Bytes → Option NeoTargetList) (save : NeoTargetList → Bool)
    (getpwnam : Bytes → Option ℕ) where
  -- What follows the loop over the options.
  unfoldable pub resolve : List Bytes → ParseState D → Outcome (NeoConfig D × Option NeoTargetList)
  resolve arguments s = do
    listed ← targets_command load save s.config
    aimed ← apply_target load s.explicit listed
    narrowed ← add_patterns copied room arguments aimed
    filtered ← resolve_user getpwnam s.user_arg (imply_batch narrowed)
    save_target load save room filtered

  -- The configuration, and the list of targets that was written, if one was.
  unfoldable pub config_parse :
      NeoConfig D → List Choice → List Bytes → Outcome (NeoConfig D × Option NeoTargetList)
  config_parse config choices arguments =
      apply_options F strtod copied room choices
        (record { config = config; user_arg = none; explicit = nothing_explicit })
      >>= resolve arguments
