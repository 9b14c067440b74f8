-- ===== src/Options/Tests.antt =====
-- Command lines with a saved target.
use application_monitoring.Prelude.{
  ◌≡◌, ◌*◌, arith, ℕ, refl, Bool, true, List, [], ◌∷◌, Option, none, some, inl,
}
use application_monitoring.Text.{Bytes, codes, copy_bounded}
use application_monitoring.Text.Numbers.{strtoul}
use application_monitoring.Double.{milli}
use application_monitoring.Examples.{start_config}
use application_monitoring.Types.{NeoConfig, protocol_ssh}
use application_monitoring.Targets.{
  NeoTarget, NeoTargetList, target_init, target_list_find, target_list_remove,
}
use application_monitoring.Options.{
  Choice, Strtod, Outcome, ok, exits, failed, opt_target, opt_host, opt_interval, opt_csv, opt_user,
  opt_delete_target,
}
use application_monitoring.Options.Bounds.{InBounds}
use application_monitoring.Options.Resolve.{
  config_parse, resolve, targets_command, apply_target, add_patterns, with_target, resolve_user,
  parse_user, save_target,
}
use application_monitoring.Options.Apply.{apply_options, apply_option}
use application_monitoring.Processes.{append_pattern}
use application_monitoring.Options.Connection.{connection_of, preferred, fallback, chosen_target}
use application_monitoring.Options.Accepted.{config_parse-InBounds}
use application_monitoring.Options.Target.{config_parse-connection_of}

-- Whole seconds only.
abbrev seconds : Bytes → Strtod ℕ
seconds text = record {
  value = (strtoul text).value * 1000;
  rest = (strtoul text).rest;
  found = (strtoul text).found;
}

abbrev always : {A : Type 0} → A → Bool
always a = true

abbrev web : NeoTarget
web = record target_init {
  name = codes "web";
  protocol = protocol_ssh;
  host = codes "10.0.0.7";
  user = codes "root";
}

abbrev saved : Bytes → Option NeoTargetList
saved path = some (record { items = web ∷ []; capacity = 8 })

abbrev accounts : Bytes → Option ℕ
accounts name = none

abbrev choices : List Choice
choices =
    opt_host (codes "10.0.0.8") ∷ opt_target (codes "web") ∷ opt_interval (codes "2") ∷ opt_csv ∷ []

abbrev parse : List Choice → Outcome (NeoConfig ℕ × Option NeoTargetList)
parse options =
    config_parse milli seconds always always saved always accounts start_config options
      (codes "nginx" ∷ [])

-- The user and the protocol are the saved ones, and the host is the one given.
abbrev aimed : NeoConfig ℕ
aimed = record start_config {
  protocol = protocol_ssh;
  remote_host = codes "10.0.0.8";
  remote_user = codes "root";
  remote_binary = [];
  target_name = codes "web";
  interval = 2000;
  csv = true;
  batch = true;
  patterns = codes "nginx" ∷ [];
}

accepted : parse choices ≡ ok (aimed, none)
unfolding config_parse apply_options apply_option resolve targets_command apply_target
    target_list_find add_patterns with_target append_pattern resolve_user parse_user save_target
    target_list_remove copy_bounded
accepted = refl

too_often : parse (opt_interval (codes "0") ∷ []) ≡ failed
unfolding config_parse apply_options apply_option resolve targets_command apply_target
    target_list_find add_patterns with_target append_pattern resolve_user parse_user save_target
    target_list_remove copy_bounded
too_often = refl

deleted :
    parse (opt_delete_target (codes "web") ∷ [])
    ≡ exits 0 (some (record { items = []; capacity = 8 }))
unfolding config_parse apply_options apply_option resolve targets_command apply_target
    target_list_find add_patterns with_target append_pattern resolve_user parse_user save_target
    target_list_remove copy_bounded
deleted = refl

-- A user that is no account is read as a number, with its sign.
negative_uid :
    parse (opt_user (codes "-1") ∷ [])
    ≡ ok (
      record start_config {
        remote_user = codes "-1";
        filter_uid = 4294967295;
        filter_uid_enabled = true;
        patterns = codes "nginx" ∷ [];
      },
      none,
    )
unfolding config_parse apply_options apply_option resolve targets_command apply_target
    target_list_find add_patterns with_target append_pattern resolve_user parse_user save_target
    target_list_remove copy_bounded
negative_uid = refl

config_parse-InBounds_example : InBounds milli aimed
unfolding copy_bounded
config_parse-InBounds_example =
    config_parse-InBounds milli seconds always always saved always accounts start_config choices
      (codes "nginx" ∷ [])
      (
        (refl, refl, refl),
        (omega arith, omega arith, omega arith),
        (omega arith, omega arith, omega arith, omega arith, omega arith, omega arith),
        (
          omega arith,
          omega arith,
          omega arith,
          omega arith,
          omega arith,
          omega arith,
          omega arith,
          omega arith,
        ),
        (inl refl, omega arith),
      )
      accepted

config_parse-connection_of_example :
    connection_of aimed
    ≡ preferred choices (fallback (chosen_target saved aimed) (connection_of start_config))
config_parse-connection_of_example =
    config_parse-connection_of milli seconds always always saved always accounts start_config
      choices (codes "nginx" ∷ []) accepted
