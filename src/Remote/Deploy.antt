-- ===== src/Remote/Deploy.antt =====
-- src/monitoring_remote.c: the check of a host, and the uploads. Each gives its result, and the lines that
-- it writes to the log.
use application_monitoring.Prelude.{
  ℤ, pos, eqb_ℤ, ◌+◌, Bool, not, ◌||◌, [], ◌∷◌, ◌++◌, none, some, if◌then◌else◌,
}
use application_monitoring.Text.{Bytes, codes, copy_bounded, is_empty}
use application_monitoring.Types.{
  NeoLogLevel, log_error, log_info, max_host, max_user, max_remote_path,
}
use application_monitoring.Remote.Session.{strstr}
use application_monitoring.Remote.Hosts.{NeoRemoteTarget, NeoFtpTarget, NeoTftpTarget, port_or}
use application_monitoring.Remote.Commands.{RunCommand, reached, fails, binary_or, build_ssh_argv}
use application_monitoring.Remote.Contact.{Contact, text_or, found_in}

module _ (decimal : ℤ → Bytes) (run_command : RunCommand) where
  -- The message of a success, and whether the monitoring tool was found.
  unfoldable pub remote_ssh_check : NeoRemoteTarget → Contact (Bytes × Bool)
  unfolding build_ssh_argv copy_bounded strstr
  remote_ssh_check target =
      if is_empty target.host
      then record { result = fails (codes "Remote host not set"); logged = [] }
      else elim (build_ssh_argv decimal target
          (copy_bounded (max_remote_path + 96) (
            codes "command -v "
            ++ (binary_or target.remote_binary
                ++ codes " >/dev/null 2>&1 && echo NEO_BINARY_OK || echo NEO_BINARY_MISSING")))
          16 (max_host + max_user + 2) 16) [
            | none ↦ record {
              result = fails (codes "Internal error building ssh command");
              logged = [];
            }
            | some argv ↦
                let ran = run_command argv none in
                if not (eqb_ℤ ran.exit_code (pos 0))
                then record {
                  result = fails (
                      codes "SSH connection failed (exit "
                      ++ (decimal ran.exit_code
                          ++ (codes "): " ++ text_or ran.err (codes "no error output"))));
                  logged = [];
                }
                else (let found = found_in (codes "NEO_BINARY_OK") ran.out in
                    record {
                      result = reached (
                        copy_bounded 512 (
                            codes "Connected to "
                            ++ (target.host
                                ++ (codes " ("
                                    ++ ((if found
                                          then codes "monitoring tool found"
                                          else codes "monitoring tool not found on remote")
                                        ++ codes ")")))),
                        found,
                      );
                      logged = [];
                    })
          ]

  -- The readability of the local file is an argument.
  unfoldable pub remote_ftp_deploy : (Bytes → Bool) → NeoFtpTarget → Bytes → Contact Unit
  unfolding copy_bounded
  remote_ftp_deploy readable target local_path =
      if is_empty target.host
      then record { result = fails (codes "FTP host not set"); logged = [] }
      else if not (readable local_path)
      then record { result = fails (codes "Local file not readable: " ++ local_path); logged = [] }
      else (let port = decimal (port_or target.port (pos 21)) in
          let place =
            target.host
            ++ (codes ":" ++ (port ++ (codes "/" ++ text_or target.remote_filename local_path))) in
          let url = copy_bounded (max_host + max_user + max_user + max_remote_path + 32) (
            if is_empty target.user
            then codes "ftp://" ++ place
            else codes "ftp://"
              ++ (target.user ++ (codes ":" ++ (target.password ++ (codes "@" ++ place))))) in
          let uploading : NeoLogLevel × Bytes = (
            log_info,
            codes "FTP: uploading "
                ++ (local_path ++ (codes " to " ++ (target.host ++ (codes ":" ++ port)))),
          ) in
          let ran =
            run_command (codes "curl" ∷ codes "-sS" ∷ codes "-T" ∷ local_path ∷ url ∷ []) none in
          let reason = text_or ran.err (codes "unknown error") in
          if not (eqb_ℤ ran.exit_code (pos 0))
          then record {
            result = fails (codes "FTP upload failed: " ++ reason);
            logged =
                uploading
                ∷ (
                  log_error,
                  codes "FTP upload to " ++ (target.host ++ (codes " failed: " ++ reason)),
                )
                ∷ [];
          }
          else record { result = reached tt; logged = uploading ∷ [] })

  unfoldable pub remote_tftp_deploy : (Bytes → Bool) → NeoTftpTarget → Bytes → Contact Unit
  unfolding copy_bounded strstr
  remote_tftp_deploy readable target local_path =
      if is_empty target.host
      then record { result = fails (codes "TFTP host not set"); logged = [] }
      else if not (readable local_path)
      then record { result = fails (codes "Local file not readable: " ++ local_path); logged = [] }
      else (let port_str = copy_bounded 16 (decimal (port_or target.port (pos 69))) in
          let ran =
            run_command
              (codes "tftp"
                ∷ codes "-m"
                ∷ codes "binary"
                ∷ target.host
                ∷ port_str
                ∷ codes "-c"
                ∷ codes "put"
                ∷ local_path
                ∷ text_or target.remote_filename local_path
                ∷ [])
              none in
          let uploading : NeoLogLevel × Bytes = (
            log_info,
            codes "TFTP: uploading "
                ++ (local_path ++ (codes " to " ++ (target.host ++ (codes ":" ++ port_str)))),
          ) in
          let looks_like_error =
            found_in (codes "Error") ran.out
            || found_in (codes "error") ran.out
            || found_in (codes "timed out") ran.out
            || not (is_empty ran.err) in
          let reason = text_or ran.out (text_or ran.err (codes "unknown error")) in
          if not (eqb_ℤ ran.exit_code (pos 0)) || looks_like_error
          then record {
            result = fails (codes "TFTP transfer failed: " ++ reason);
            logged =
                uploading
                ∷ (
                  log_error,
                  codes "TFTP transfer to " ++ (target.host ++ (codes " failed: " ++ reason)),
                )
                ∷ [];
          }
          else record { result = reached tt; logged = uploading ∷ [] })
