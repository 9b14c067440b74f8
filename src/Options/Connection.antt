-- ===== src/Options/Connection.antt =====
-- Where the connection of a configuration comes from: the command line, a saved target, or the start.
use application_monitoring.Prelude.{ℤ, List, [], ◌∷◌, Option, none, some, if◌then◌else◌}
use application_monitoring.Text.{Bytes, copy_bounded, is_empty}
use application_monitoring.Text.Numbers.{strtol, cast_int32}
use application_monitoring.Types.{NeoConfig, NeoProtocol, max_host, max_user, max_remote_path}
use application_monitoring.Targets.{NeoTarget, NeoTargetList, target_list_find}
use application_monitoring.Options.{
  Choice, opt_protocol, opt_host, opt_user, opt_password, opt_port, opt_identity, opt_remote_bin,
  opt_remote_file,
}
use application_monitoring.Options.Apply.{protocol_option}

module _ {A : Type 0} where
  abbrev pub or_else : Option A → A → A
  or_else none a = a
  or_else (some b) a = b

  abbrev pub or : Option A → Option A → Option A
  or none m = m
  or (some b) m = some b

  -- What the last of the options gives that gives anything.
  unfoldable pub last : (Choice → Option A) → List Choice → Option A
  last arg [] = none
  last arg (choice ∷ choices) = or (last arg choices) (arg choice)

abbrev pub protocol_arg : Choice → Option NeoProtocol
protocol_arg (opt_protocol optarg) = protocol_option optarg
protocol_arg other = none

abbrev pub host_arg : Choice → Option Bytes
host_arg (opt_host optarg) = some (copy_bounded max_host optarg)
host_arg other = none

abbrev pub user_arg : Choice → Option Bytes
user_arg (opt_user optarg) = some (copy_bounded max_user optarg)
user_arg other = none

abbrev pub password_arg : Choice → Option Bytes
password_arg (opt_password optarg) = some (copy_bounded max_user optarg)
password_arg other = none

abbrev pub port_arg : Choice → Option ℤ
port_arg (opt_port optarg) = some (cast_int32 (strtol optarg).value)
port_arg other = none

abbrev pub identity_arg : Choice → Option Bytes
identity_arg (opt_identity optarg) = some (copy_bounded max_remote_path optarg)
identity_arg other = none

abbrev pub remote_bin_arg : Choice → Option Bytes
remote_bin_arg (opt_remote_bin optarg) = some (copy_bounded max_remote_path optarg)
remote_bin_arg other = none

abbrev pub remote_file_arg : Choice → Option Bytes
remote_file_arg (opt_remote_file optarg) = some (copy_bounded max_remote_path optarg)
remote_file_arg other = none

-- The fields of a connection.
pub record Connection : Type 0 where
  pub protocol : NeoProtocol
  pub host : Bytes
  pub user : Bytes
  pub password : Bytes
  pub port : ℤ
  pub identity : Bytes
  pub remote_bin : Bytes
  pub remote_file : Bytes

abbrev pub connection_of : {D : Type 0} → NeoConfig D → Connection
connection_of config = record {
  protocol = config.protocol;
  host = config.remote_host;
  user = config.remote_user;
  password = config.remote_password;
  port = config.remote_port;
  identity = config.remote_identity;
  remote_bin = config.remote_binary;
  remote_file = config.remote_file;
}

-- The saved target of a name, in the file at a path.
unfoldable pub named_target : (Bytes → Option NeoTargetList) → Bytes → Bytes → Option NeoTarget
named_target load name path =
    if is_empty name
    then none
    else elim (load path) [ none ↦ none | some list ↦ target_list_find list name ]

-- The target that a configuration names.
abbrev pub chosen_target :
    {D : Type 0} → (Bytes → Option NeoTargetList) → NeoConfig D → Option NeoTarget
chosen_target load config = named_target load config.target_name config.targets_file

-- What a saved target offers, copied into the arrays of the configuration.
abbrev pub offered : NeoTarget → Connection
offered t = record {
  protocol = t.protocol;
  host = copy_bounded max_host t.host;
  user = copy_bounded max_user t.user;
  password = copy_bounded max_user t.password;
  port = t.port;
  identity = copy_bounded max_remote_path t.identity;
  remote_bin = copy_bounded max_remote_path t.remote_bin;
  remote_file = copy_bounded max_remote_path t.remote_file;
}

-- Without a target, the connection from before.
abbrev pub fallback : Option NeoTarget → Connection → Connection
fallback none start = start
fallback (some t) start = offered t

-- Each field is the last one given, and otherwise that of the saved target or of the start.
abbrev pub preferred : List Choice → Connection → Connection
preferred choices start = record {
  protocol = or_else (last protocol_arg choices) start.protocol;
  host = or_else (last host_arg choices) start.host;
  user = or_else (last user_arg choices) start.user;
  password = or_else (last password_arg choices) start.password;
  port = or_else (last port_arg choices) start.port;
  identity = or_else (last identity_arg choices) start.identity;
  remote_bin = or_else (last remote_bin_arg choices) start.remote_bin;
  remote_file = or_else (last remote_file_arg choices) start.remote_file;
}
