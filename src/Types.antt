-- ===== src/Types.antt =====
-- inc/monitoring_services.h: the types that the core and both frontends share.
-- A C array with its count field is a list; a `char` array is the bytes before its NUL.
use application_monitoring.Prelude.{ℕ, ℤ, Bool, List}
use application_monitoring.Text.{Bytes}

abbrev pub max_patterns : ℕ
max_patterns = 128

abbrev pub max_cmdline : ℕ
max_cmdline = 8192

abbrev pub max_user : ℕ
max_user = 64

abbrev pub max_state_filter : ℕ
max_state_filter = 16

abbrev pub initial_capacity : ℕ
initial_capacity = 128

abbrev pub max_host : ℕ
max_host = 256

abbrev pub max_remote_path : ℕ
max_remote_path = 512

abbrev pub target_name_max : ℕ
target_name_max = 64

pub data NeoSortMode : Type 0 where
  sort_cpu sort_mem sort_pid sort_rss sort_io_read sort_io_write : NeoSortMode

pub data NeoProtocol : Type 0 where
  protocol_local protocol_ssh protocol_telnet protocol_ftp protocol_tftp : NeoProtocol

pub data NeoLogLevel : Type 0 where
  log_error log_warn log_info log_debug : NeoLogLevel

-- `D` is the type `double`.
pub record NeoProcess (D : Type 0) : Type 0 where
  pub pid : ℤ
  pub ppid : ℤ
  pub uid : ℕ
  pub user : Bytes
  pub state : ℕ
  pub threads : ℕ
  pub utime : ℕ
  pub stime : ℕ
  pub total_time : ℕ
  pub read_bytes : ℕ
  pub write_bytes : ℕ
  pub vsz_kb : ℕ
  pub rss_kb : ℕ
  pub swap_kb : ℕ
  pub cpu_percent : D
  pub mem_percent : D
  pub rss_mb : D
  pub vsz_mb : D
  pub swap_mb : D
  pub io_read_mb_s : D
  pub io_write_mb_s : D
  pub start_time : ℤ
  pub elapsed_seconds : D
  pub comm : Bytes
  pub cmdline : Bytes

-- The items below `count`, and the number of items that the allocation holds.
pub record NeoProcessList (D : Type 0) : Type 0 where
  pub items : List (NeoProcess D)
  pub capacity : ℕ

pub record NeoPreviousSample : Type 0 where
  pub pid : ℤ
  pub total_time : ℕ
  pub read_bytes : ℕ
  pub write_bytes : ℕ

pub record NeoSystemInfo : Type 0 where
  pub total_cpu : ℕ
  pub total_memory_kb : ℕ
  pub cpu_count : ℕ

pub record NeoConfig (D : Type 0) : Type 0 where
  pub interval : D
  pub cpu_threshold : D
  pub ram_threshold_mb : D
  pub ram_threshold_percent : D
  pub show_long_args : Bool
  pub show_vsz : Bool
  pub show_swap : Bool
  pub show_io : Bool
  pub show_threads : Bool
  pub show_start_time : Bool
  pub show_elapsed : Bool
  pub once : Bool
  pub batch : Bool
  pub csv : Bool
  pub json : Bool
  pub no_color : Bool
  pub reverse : Bool
  pub limit : ℕ
  pub filter_uid : ℕ
  pub filter_uid_enabled : Bool
  pub filter_user : Bytes
  pub filter_user_enabled : Bool
  pub pids : List ℤ
  pub ppids : List ℤ
  pub states : List ℕ
  pub sort_mode : NeoSortMode
  pub patterns : List Bytes
  pub exclude_patterns : List Bytes
  pub protocol : NeoProtocol
  pub remote_host : Bytes
  pub remote_user : Bytes
  pub remote_password : Bytes
  pub remote_port : ℤ
  pub remote_identity : Bytes
  pub remote_binary : Bytes
  pub local_file : Bytes
  pub remote_file : Bytes
  pub capture_enabled : Bool
  pub capture_duration_seconds : D
  pub capture_output : Bytes
  pub log_file : Bytes
  pub log_level : NeoLogLevel
  pub alert_cpu_percent : D
  pub alert_mem_percent : D
  pub alert_sustain_seconds : D
  pub alert_notify : Bool
  pub alert_webhook : Bytes
  pub target_name : Bytes
  pub save_target_name : Bytes
  pub delete_target_name : Bytes
  pub list_targets : Bool
  pub targets_file : Bytes
