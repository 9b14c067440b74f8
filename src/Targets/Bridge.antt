-- ===== src/Targets/Bridge.antt =====
-- A target that is made from a configuration restores its connection.
use application_monitoring.Prelude.{ℕ, ◌<◌, ◌≡◌, refl, Option, length}
use application_monitoring.Text.{Bytes, copy_bounded, copy_bounded_of_lt, strcasecmp_eq}
use application_monitoring.Types.{
  NeoProtocol, protocol_local, protocol_ssh, protocol_telnet, protocol_ftp, protocol_tftp,
  NeoConfig, max_host, max_user, max_remote_path,
}
use application_monitoring.Targets.{
  target_from_config, target_apply_to_config, protocol_from_string, protocol_to_string,
}

-- The name of a protocol, which the file of targets holds, reads back as the protocol.
pub protocol_from_string-protocol_to_string :
    (protocol : NeoProtocol) → protocol_from_string (protocol_to_string protocol) ≡ protocol
unfolding protocol_from_string strcasecmp_eq
protocol_from_string-protocol_to_string protocol_local = refl
protocol_from_string-protocol_to_string protocol_ssh = refl
protocol_from_string-protocol_to_string protocol_telnet = refl
protocol_from_string-protocol_to_string protocol_ftp = refl
protocol_from_string-protocol_to_string protocol_tftp = refl

-- The texts of a configuration that a target holds fit their arrays, with their NUL.
pub record Fits {D : Type 0} (config : NeoConfig D) : Type 0 where
  pub host_fits : length config.remote_host < max_host
  pub user_fits : length config.remote_user < max_user
  pub password_fits : length config.remote_password < max_user
  pub identity_fits : length config.remote_identity < max_remote_path
  pub binary_fits : length config.remote_binary < max_remote_path
  pub file_fits : length config.remote_file < max_remote_path

-- The fields of the connection are taken from one configuration, all else from another.
abbrev pub with_connection : {D : Type 0} → NeoConfig D → NeoConfig D → NeoConfig D
with_connection saved config = record config {
  protocol = saved.protocol;
  remote_host = saved.remote_host;
  remote_user = saved.remote_user;
  remote_password = saved.remote_password;
  remote_port = saved.remote_port;
  remote_identity = saved.remote_identity;
  remote_binary = saved.remote_binary;
  remote_file = saved.remote_file;
}

copy_twice : (size : ℕ) (s : Bytes) → length s < size → copy_bounded size (copy_bounded size s) ≡ s
copy_twice size s h = rw (copy_bounded_of_lt size s h, copy_bounded_of_lt size s h) refl

-- Applying the target that was made from a configuration whose texts fit their arrays, under whatever
-- name, brings back that configuration's connection, and changes nothing else of the configuration.
pub target_apply_to_config-target_from_config :
    {D : Type 0} (saved config : NeoConfig D) (name : Option Bytes)
    → Fits saved
    → target_apply_to_config (target_from_config saved name) config ≡ with_connection saved config
unfolding target_apply_to_config target_from_config
target_apply_to_config-target_from_config saved config name h =
    rw
      (
        copy_twice max_host saved.remote_host h.host_fits,
        copy_twice max_user saved.remote_user h.user_fits,
        copy_twice max_user saved.remote_password h.password_fits,
        copy_twice max_remote_path saved.remote_identity h.identity_fits,
        copy_twice max_remote_path saved.remote_binary h.binary_fits,
        copy_twice max_remote_path saved.remote_file h.file_fits,
      )
      refl
