-- ===== src/Config.antt =====
-- src/monitoring_services_core.c: the life of a `NeoConfig`.
use application_monitoring.Prelude.{pos, false, true, []}
use application_monitoring.Text.{codes, copy_bounded}
use application_monitoring.Double.{Double}
use application_monitoring.Types.{NeoConfig, sort_cpu, protocol_local, log_info, max_remote_path}

module _ {D : Type 0} (F : Double D) where
  abbrev pub default_interval : D
  default_interval = F.ratio 2 1

  abbrev pub min_interval : D
  min_interval = F.ratio 1 10

  abbrev pub max_interval : D
  max_interval = F.ratio 60 1

  -- The fields that the body does not name are zero by its `memset`.
  abbrev pub config_init : NeoConfig D
  config_init = record {
    interval = default_interval;
    cpu_threshold = F.ratio 0 1;
    ram_threshold_mb = F.ratio 0 1;
    ram_threshold_percent = F.ratio 0 1;
    show_long_args = false;
    show_vsz = true;
    show_swap = false;
    show_io = false;
    show_threads = false;
    show_start_time = false;
    show_elapsed = false;
    once = false;
    batch = false;
    csv = false;
    json = false;
    no_color = false;
    reverse = false;
    limit = 0;
    filter_uid = 0;
    filter_uid_enabled = false;
    filter_user = [];
    filter_user_enabled = false;
    pids = [];
    ppids = [];
    states = [];
    sort_mode = sort_cpu;
    patterns = [];
    exclude_patterns = [];
    protocol = protocol_local;
    remote_host = [];
    remote_user = [];
    remote_password = [];
    remote_port = pos 0;
    remote_identity = [];
    remote_binary = copy_bounded max_remote_path (codes "app_top_monitoring");
    local_file = [];
    remote_file = [];
    capture_enabled = false;
    capture_duration_seconds = F.ratio 0 1;
    capture_output = [];
    log_file = [];
    log_level = log_info;
    alert_cpu_percent = F.ratio 0 1;
    alert_mem_percent = F.ratio 0 1;
    alert_sustain_seconds = F.ratio 5 1;
    alert_notify = false;
    alert_webhook = [];
    target_name = [];
    save_target_name = [];
    delete_target_name = [];
    list_targets = false;
    targets_file = [];
  }

-- Frees the four arrays.
unfoldable pub config_free : {D : Type 0} → NeoConfig D → NeoConfig D
config_free config = record config { pids = []; ppids = []; patterns = []; exclude_patterns = [] }
