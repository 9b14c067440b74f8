-- ===== src/Remote/Hosts.antt =====
-- src/monitoring_remote.c and src/monotoring_services.c: the hosts that a configuration names, for each
-- protocol.
use application_monitoring.Prelude.{ℤ, pos, ltb_ℤ, [], if◌then◌else◌}
use application_monitoring.Text.{Bytes, codes, copy_bounded, is_empty}
use application_monitoring.Types.{NeoConfig, max_host, max_user, max_remote_path}

pub record NeoRemoteTarget : Type 0 where
  pub host : Bytes
  pub user : Bytes
  pub password : Bytes
  pub port : ℤ
  pub identity_file : Bytes
  pub remote_binary : Bytes

pub record NeoFtpTarget : Type 0 where
  pub host : Bytes
  pub user : Bytes
  pub password : Bytes
  pub port : ℤ
  pub remote_filename : Bytes

pub record NeoTftpTarget : Type 0 where
  pub host : Bytes
  pub port : ℤ
  pub remote_filename : Bytes

abbrev pub default_binary : Bytes
default_binary = codes "app_top_monitoring"

abbrev pub remote_target_init : NeoRemoteTarget
remote_target_init = record {
  host = [];
  user = [];
  password = [];
  port = pos 0;
  identity_file = [];
  remote_binary = default_binary;
}

abbrev pub ftp_target_init : NeoFtpTarget
ftp_target_init = record {
  host = [];
  user = [];
  password = [];
  port = pos 21;
  remote_filename = [];
}

abbrev pub tftp_target_init : NeoTftpTarget
tftp_target_init = record { host = []; port = pos 69; remote_filename = [] }

-- A port that is not positive stands for the default one.
abbrev pub port_or : ℤ → ℤ → ℤ
port_or port default_port = if ltb_ℤ (pos 0) port then port else default_port

module _ {D : Type 0} (config : NeoConfig D) where
  unfoldable pub build_remote_target : NeoRemoteTarget
  unfolding copy_bounded
  build_remote_target = record remote_target_init {
    host = copy_bounded max_host config.remote_host;
    user = copy_bounded max_user config.remote_user;
    password = copy_bounded max_user config.remote_password;
    identity_file = copy_bounded max_remote_path config.remote_identity;
    remote_binary =
        copy_bounded max_remote_path
          (if is_empty config.remote_binary then default_binary else config.remote_binary);
    port = config.remote_port;
  }

  unfoldable pub build_ftp_target : NeoFtpTarget
  unfolding copy_bounded
  build_ftp_target = record ftp_target_init {
    host = copy_bounded max_host config.remote_host;
    user = copy_bounded max_user config.remote_user;
    password = copy_bounded max_user config.remote_password;
    remote_filename = copy_bounded max_remote_path config.remote_file;
    port = port_or config.remote_port ftp_target_init.port;
  }

  unfoldable pub build_tftp_target : NeoTftpTarget
  unfolding copy_bounded
  build_tftp_target = record tftp_target_init {
    host = copy_bounded max_host config.remote_host;
    remote_filename = copy_bounded max_remote_path config.remote_file;
    port = port_or config.remote_port tftp_target_init.port;
  }
