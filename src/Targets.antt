-- ===== src/Targets.antt =====
-- src/monitoring_targets.c: the saved targets in memory, and the bridge between a target and the
-- configuration. `room n` says whether `realloc` to room for `n` targets succeeds.
pub mod Bridge
pub mod Json
pub mod Lookup
pub mod Strings
pub mod Names
pub mod Rebuilt
mod Tests
use application_monitoring.Prelude.{
  ℕ, ℤ, pos, ◌+◌, ◌*◌, Bool, true, false, List, [], ◌∷◌, ◌++◌, Option, none, some, leb, ◌==◌,
  if◌then◌else◌, length,
}
use application_monitoring.Text.{Bytes, codes, strcmp_eq, strcasecmp_eq, copy_bounded, is_empty}
use application_monitoring.Types.{
  NeoProtocol, protocol_local, protocol_ssh, protocol_telnet, protocol_ftp, protocol_tftp,
  NeoConfig, max_host, max_user, max_remote_path, target_name_max,
}

pub record NeoTarget : Type 0 where
  pub name : Bytes
  pub protocol : NeoProtocol
  pub host : Bytes
  pub user : Bytes
  pub password : Bytes
  pub port : ℤ
  pub identity : Bytes
  pub remote_bin : Bytes
  pub remote_file : Bytes

pub record NeoTargetList : Type 0 where
  pub items : List NeoTarget
  pub capacity : ℕ

abbrev pub target_init : NeoTarget
target_init = record {
  name = [];
  protocol = protocol_ssh;
  host = [];
  user = [];
  password = [];
  port = pos 0;
  identity = [];
  remote_bin = [];
  remote_file = [];
}

abbrev pub target_list_init : NeoTargetList
target_list_init = record { items = []; capacity = 0 }

abbrev pub target_list_free : NeoTargetList → NeoTargetList
target_list_free list = record { items = []; capacity = 0 }

target_list_reserve : (ℕ → Bool) → NeoTargetList → ℕ → Option NeoTargetList
target_list_reserve room list capacity =
    if leb capacity list.capacity
    then some list
    else if room capacity
    then some (record list { capacity = capacity })
    else none

pub find_named : List NeoTarget → Bytes → Option NeoTarget
unfolding strcmp_eq
find_named [] name = none
find_named (x ∷ items) name = if strcmp_eq x.name name then some x else find_named items name

unfoldable pub target_list_find : NeoTargetList → Bytes → Option NeoTarget
unfolding find_named
target_list_find list name = find_named list.items name

-- The loop of `target_list_upsert`: the first item of that name is overwritten.
pub overwrite : List NeoTarget → NeoTarget → Option (List NeoTarget)
unfolding strcmp_eq
overwrite [] target = none
overwrite (x ∷ items) target =
    if strcmp_eq x.name target.name
    then some (target ∷ items)
    else elim (overwrite items target) [ none ↦ none | some rest ↦ some (x ∷ rest) ]

-- A full list doubles its capacity, and the target goes behind the last item.
add_target : (ℕ → Bool) → NeoTargetList → NeoTarget → Option NeoTargetList
unfolding target_list_reserve
add_target room list target =
    elim (if length list.items == list.capacity
      then target_list_reserve room list (if list.capacity == 0 then 8 else list.capacity * 2)
      else some list) [ none ↦ none | some l ↦ some (record l { items = l.items ++ target ∷ [] }) ]

unfoldable pub target_list_upsert : (ℕ → Bool) → NeoTargetList → NeoTarget → Option NeoTargetList
unfolding overwrite add_target
target_list_upsert room list target =
    if is_empty target.name then none else elim (overwrite list.items target) [
      | some items ↦ some (record list { items = items })
      | none ↦ add_target room list target
    ]

-- The loop of `target_list_remove`: the items behind the first one of that name move up.
pub take_out : List NeoTarget → Bytes → Option (List NeoTarget)
unfolding strcmp_eq
take_out [] name = none
take_out (x ∷ items) name =
    if strcmp_eq x.name name
    then some items
    else elim (take_out items name) [ none ↦ none | some rest ↦ some (x ∷ rest) ]

unfoldable pub target_list_remove : NeoTargetList → Bytes → Option NeoTargetList
unfolding take_out
target_list_remove list name = elim (take_out list.items name) [
  | none ↦ none
  | some items ↦ some (record list { items = items })
]

unfoldable pub protocol_from_string : Bytes → NeoProtocol
unfolding strcasecmp_eq
protocol_from_string text =
    if strcasecmp_eq text (codes "ssh")
    then protocol_ssh
    else if strcasecmp_eq text (codes "telnet")
    then protocol_telnet
    else if strcasecmp_eq text (codes "ftp")
    then protocol_ftp
    else if strcasecmp_eq text (codes "tftp")
    then protocol_tftp
    else protocol_local

abbrev pub protocol_to_string : NeoProtocol → Bytes
protocol_to_string protocol_ssh = codes "ssh"
protocol_to_string protocol_telnet = codes "telnet"
protocol_to_string protocol_ftp = codes "ftp"
protocol_to_string protocol_tftp = codes "tftp"
protocol_to_string protocol_local = codes "local"

-- A NULL name is `none`.
unfoldable pub target_from_config : {D : Type 0} → NeoConfig D → Option Bytes → NeoTarget
unfolding copy_bounded
target_from_config config name = record target_init {
  name = elim name [ none ↦ [] | some text ↦ copy_bounded target_name_max text ];
  protocol = config.protocol;
  host = copy_bounded max_host config.remote_host;
  user = copy_bounded max_user config.remote_user;
  password = copy_bounded max_user config.remote_password;
  port = config.remote_port;
  identity = copy_bounded max_remote_path config.remote_identity;
  remote_bin = copy_bounded max_remote_path config.remote_binary;
  remote_file = copy_bounded max_remote_path config.remote_file;
}

unfoldable pub target_apply_to_config : {D : Type 0} → NeoTarget → NeoConfig D → NeoConfig D
unfolding copy_bounded
target_apply_to_config target config = record config {
  protocol = target.protocol;
  remote_host = copy_bounded max_host target.host;
  remote_user = copy_bounded max_user target.user;
  remote_password = copy_bounded max_user target.password;
  remote_port = target.port;
  remote_identity = copy_bounded max_remote_path target.identity;
  remote_binary = copy_bounded max_remote_path target.remote_bin;
  remote_file = copy_bounded max_remote_path target.remote_file;
}
