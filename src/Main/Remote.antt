-- ===== src/Main/Remote.antt =====
-- src/monotoring_services.c: `run_remote_monitor` and `run_deploy`.
use application_monitoring.Prelude.{
  ℕ, ℤ, Bool, true, false, List, [], ◌∷◌, ◌++◌, map, if◌then◌else◌,
}
use application_monitoring.Text.{Bytes, is_empty}
use application_monitoring.Double.{Double}
use application_monitoring.Types.{
  NeoConfig, NeoProcess, NeoProcessList, NeoProtocol, protocol_local, protocol_ssh, protocol_telnet,
  protocol_ftp, protocol_tftp, log_error, log_info,
}
use application_monitoring.Processes.{process_list_init}
use application_monitoring.Sort.{Qsort, sort_processes}
use application_monitoring.Remote.Hosts.{
  NeoRemoteTarget, build_remote_target, build_ftp_target, build_tftp_target,
}
use application_monitoring.Remote.Commands.{RunCommand, Reached, reached, denied, out_of_bounds}
use application_monitoring.Remote.Contact.{Contact, Scan, remote_ssh_scan, remote_telnet_scan}
use application_monitoring.Remote.Deploy.{remote_ftp_deploy, remote_tftp_deploy}
use application_monitoring.Main.{
  Event, logged, transcript, output, pause, remote_started, remote_failed, deploy_started,
  deploy_failed, deploy_finished, exit_success, exit_failure,
}
use application_monitoring.Main.Filters.{apply_local_filters}

-- What one pass of the remote loop reads: the flag, the commands, and the memory that can be had.
pub record RemoteRound : Type 0 where
  pub running : Bool
  pub run_command : RunCommand
  pub block_copied : Bool
  pub rows_copied : Bool
  pub malloc : ℕ → Bool
  pub room : ℕ → Bool

-- A run that goes on, that has returned a code, or that was led out of bounds.
pub data RemoteRun (D : Type 0) : Type 0 where
  remote_runs : List (Event D) → RemoteRun D
  remote_ends : ℕ → List (Event D) → RemoteRun D
  remote_overruns : List (Event D) → RemoteRun D

abbrev pub is_ssh : NeoProtocol → Bool
is_ssh protocol_ssh = true
is_ssh protocol_local = false
is_ssh protocol_telnet = false
is_ssh protocol_ftp = false
is_ssh protocol_tftp = false

abbrev is_ftp : NeoProtocol → Bool
is_ftp protocol_ftp = true
is_ftp protocol_local = false
is_ftp protocol_telnet = false
is_ftp protocol_ssh = false
is_ftp protocol_tftp = false

module _ {D : Type 0} (F : Double D) (strtod : Bytes → D) (decimal : ℤ → Bytes)
    (qsort : Qsort (NeoProcess D)) (config : NeoConfig D) where
  -- The scan of one pass.
  unfoldable pub fetched : RemoteRound → NeoRemoteTarget → NeoProcessList D → Contact (Scan D)
  unfolding remote_ssh_scan remote_telnet_scan
  fetched r target list =
      if is_ssh config.protocol
      then remote_ssh_scan decimal r.run_command F strtod r.block_copied r.rows_copied r.malloc
          r.room target list
      else remote_telnet_scan decimal r.run_command F strtod r.block_copied r.rows_copied r.malloc
          r.room target list

  -- The processes that are shown.
  unfoldable pub filtered : NeoProcessList D → NeoProcessList D
  unfolding apply_local_filters sort_processes
  filtered list =
      let kept = apply_local_filters config list in
      record kept { items = sort_processes F qsort kept.items config.sort_mode config.reverse }

  -- What a scan is followed by: the output and the next pass, or the end of the function.
  unfoldable pub remote_after :
      Reached (Scan D)
      → List (Event D)
      → (NeoProcessList D → List (Event D) → RemoteRun D)
      → RemoteRun D
  unfolding filtered
  remote_after out_of_bounds events rest = remote_overruns events
  remote_after (denied message) events rest =
      remote_ends exit_failure (events ++ logged log_error (remote_failed message) ∷ [])
  remote_after (reached scan) events rest =
      let list = filtered scan.0 in
      let seen = events ++ output config scan.1 list.items ∷ [] in
      if config.once then remote_ends exit_success seen else rest list (seen ++ pause F config ∷ [])

  -- while (running)
  unfoldable pub remote_loop :
      NeoRemoteTarget → List RemoteRound → NeoProcessList D → List (Event D) → RemoteRun D
  unfolding fetched remote_after
  remote_loop target [] list events = remote_runs events
  remote_loop target (r ∷ rounds) list events = elim r.running [
    | false ↦ remote_ends exit_success events
    | true ↦
        let contact = fetched r target list in
        remote_after contact.result (events ++ map transcript contact.logged)
          (remote_loop target rounds)
  ]

  unfoldable pub run_remote_monitor : List RemoteRound → RemoteRun D
  unfolding build_remote_target remote_loop
  run_remote_monitor rounds =
      if is_empty config.remote_host
      then remote_ends exit_failure []
      else remote_loop (build_remote_target config) rounds process_list_init
          (logged log_info remote_started ∷ [])

  -- The upload for the protocol.
  unfoldable pub uploaded : RunCommand → (Bytes → Bool) → Contact Unit
  unfolding remote_ftp_deploy remote_tftp_deploy build_ftp_target build_tftp_target
  uploaded run_command readable =
      if is_ftp config.protocol
      then remote_ftp_deploy decimal run_command readable (build_ftp_target config)
          config.local_file
      else remote_tftp_deploy decimal run_command readable (build_tftp_target config)
          config.local_file

  unfoldable pub run_deploy : RunCommand → (Bytes → Bool) → ℕ × List (Event D)
  unfolding uploaded
  run_deploy run_command readable =
      if is_empty config.remote_host
      then (exit_failure, [])
      else if is_empty config.local_file
      then (exit_failure, [])
      else (let contact = uploaded run_command readable in
          let heard : List (Event D) =
            logged log_info deploy_started ∷ map transcript contact.logged in
          elim contact.result [
            | reached done ↦ (exit_success, heard ++ logged log_info deploy_finished ∷ [])
            | denied message ↦
                (exit_failure, heard ++ logged log_error (deploy_failed message) ∷ [])
            | out_of_bounds ↦ (exit_failure, heard)
          ])
