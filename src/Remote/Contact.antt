-- ===== src/Remote/Contact.antt =====
-- src/monitoring_remote.c: the scans over SSH and Telnet. Each gives
-- its result, and the lines that it writes to the log.
use application_monitoring.Prelude.{
  ℕ, ℤ, pos, eqb_ℤ, ◌+◌, ◌-◌, Bool, true, false, not, ◌&&◌, List, [], ◌∷◌, ◌++◌, none, some, length,
  if◌then◌else◌,
}
use application_monitoring.Text.{Bytes, codes, copy_bounded, is_empty}
use application_monitoring.Double.{Double}
use application_monitoring.Types.{
  NeoProcessList, NeoSystemInfo, NeoLogLevel, log_error, log_warn, log_debug, max_host, max_user,
  max_remote_path,
}
use application_monitoring.Remote.Session.{parse_combined_output, strstr}
use application_monitoring.Remote.Hosts.{NeoRemoteTarget, port_or}
use application_monitoring.Remote.Commands.{
  RunCommand, Reached, reached, out_of_bounds, fails, binary_or, build_combined_remote_command,
  build_ssh_argv,
}

pub record Contact (A : Type 0) : Type 0 where
  pub result : Reached A
  pub logged : List (NeoLogLevel × Bytes)

-- The list and the totals that a scan brings.
abbrev pub Scan : Type 0 → Type 0
Scan D = NeoProcessList D × NeoSystemInfo

-- How the output of a session is read: the line for a failure, the lines so far, the output, and what
-- follows a success.
abbrev pub Reading : Type 0 → Type 0
Reading D =
    Bytes → List (NeoLogLevel × Bytes) → Bytes → (Scan D → Contact (Scan D)) → Contact (Scan D)

abbrev pub text_or : Bytes → Bytes → Bytes
text_or text other = if is_empty text then other else text

abbrev pub found_in : Bytes → Bytes → Bool
found_in needle text = elim (strstr text needle) [ none ↦ false | some found ↦ true ]

-- The script and the offset behind it: snprintf(script + offset, sizeof(script) - offset, ...).
abbrev script_size : ℕ
script_size = 2200

abbrev pub script_append : Bytes × ℕ → Bytes → Bytes × ℕ
script_append (script, offset) text =
    (script ++ copy_bounded (script_size - offset) text, offset + length text)

-- The session as it is typed: the user and the password if there are any, the command, and `exit`.
unfoldable pub telnet_script : NeoRemoteTarget → Bytes → Bytes × ℕ
unfolding copy_bounded
telnet_script target remote_command =
    let start : Bytes × ℕ = ([], 0) in
    let named =
      if is_empty target.user then start else script_append start (target.user ++ (10 ∷ [])) in
    let known =
      if is_empty target.password
      then named
      else script_append named (target.password ++ (10 ∷ [])) in
    let asked = script_append known (remote_command ++ (10 ∷ [])) in
    script_append asked (codes "exit" ++ (10 ∷ []))

module _ (decimal : ℤ → Bytes) (run_command : RunCommand) where
  module _ {D : Type 0} (F : Double D) (strtod : Bytes → D) (block_copied rows_copied : Bool)
      (malloc : ℕ → Bool) (room : ℕ → Bool) where
    -- if (parse_combined_output(...) != 0) ...
    unfoldable pub parsed :
        Bytes
        → List (NeoLogLevel × Bytes)
        → NeoProcessList D
        → Bytes
        → (Scan D → Contact (Scan D))
        → Contact (Scan D)
    unfolding parse_combined_output
    parsed log_text logged list out go_on =
        elim (parse_combined_output F strtod block_copied rows_copied malloc room list out) [
          | none ↦ record { result = out_of_bounds; logged = logged }
          | some session ↦ if session.ok then go_on (session.list, session.system) else record {
            result = fails (codes "Failed to parse remote CSV output");
            logged = logged ++ (log_error, log_text) ∷ [];
          }
        ]

    -- The function up to the output of the session; `read` goes on with it.
    unfoldable pub ssh_contact : NeoRemoteTarget → Reading D → Contact (Scan D)
    unfolding build_ssh_argv build_combined_remote_command
    ssh_contact target read =
        if is_empty target.host
        then record { result = fails (codes "Remote host not set"); logged = [] }
        else elim (build_ssh_argv decimal target
            (build_combined_remote_command (max_remote_path + 128) target.remote_binary) 16
            (max_host + max_user + 2) 16) [
              | none ↦ record {
                result = fails (codes "Internal error building ssh command");
                logged = [];
              }
              | some argv ↦
                  let connecting : NeoLogLevel × Bytes = (
                    log_debug,
                    codes "SSH: connecting to "
                        ++ (text_or target.user (codes "(default user)")
                            ++ (codes "@" ++ (target.host ++ (codes ":" ++ decimal target.port)))),
                  ) in
                  let ran = run_command argv none in
                  let reason = text_or ran.err (codes "no error output") in
                  if not (eqb_ℤ ran.exit_code (pos 0))
                  then record {
                    result = fails (
                        codes "SSH command failed (exit "
                        ++ (decimal ran.exit_code ++ (codes "): " ++ reason)));
                    logged =
                        connecting
                        ∷ (
                          log_error,
                          codes "SSH scan of "
                              ++ (target.host
                                  ++ (codes " failed (exit "
                                      ++ (decimal ran.exit_code ++ (codes "): " ++ reason)))),
                        )
                        ∷ [];
                  }
                  else read
                      (codes "SSH scan of "
                        ++ (target.host ++ codes " failed: could not parse remote output"))
                      (connecting ∷ []) ran.out
                      (λ scan. record { result = reached scan; logged = connecting ∷ [] })
            ]

    unfoldable pub remote_ssh_scan : NeoRemoteTarget → NeoProcessList D → Contact (Scan D)
    unfolding parsed ssh_contact
    remote_ssh_scan target list =
        ssh_contact target (λ log_text logged. parsed log_text logged list)

    -- The same for telnet.
    unfoldable pub telnet_contact : NeoRemoteTarget → Reading D → Contact (Scan D)
    unfolding telnet_script build_combined_remote_command copy_bounded
    telnet_contact target read =
        if is_empty target.host
        then record { result = fails (codes "Remote host not set"); logged = [] }
        else (let script =
              telnet_script target
                (build_combined_remote_command (max_remote_path + 128) target.remote_binary) in
            let port_str = copy_bounded 16 (decimal (port_or target.port (pos 23))) in
            let connecting : NeoLogLevel × Bytes = (
              log_debug,
              codes "Telnet: connecting to " ++ (target.host ++ (codes ":" ++ port_str)),
            ) in
            let ran = run_command (codes "telnet" ∷ target.host ∷ port_str ∷ []) (some script.0) in
            let reason = text_or ran.err (codes "no error output") in
            if not (eqb_ℤ ran.exit_code (pos 0)) && is_empty ran.out
            then record {
              result = fails (codes "Telnet connection failed: " ++ reason);
              logged =
                  connecting
                  ∷ (
                    log_error,
                    codes "Telnet connection to " ++ (target.host ++ (codes " failed: " ++ reason)),
                  )
                  ∷ [];
            }
            else read
                (codes "Telnet scan of "
                  ++ (target.host ++ codes " failed: could not parse remote output"))
                (connecting ∷ []) ran.out
                (λ scan. elim scan.0.items [
                  | [] ↦ record {
                    result = fails (
                        codes
                          "Connected, but no valid data was found in the telnet session output. Check the login sequence and that \""
                        ++ (binary_or target.remote_binary ++ codes "\" is on the card's PATH."));
                    logged =
                        connecting
                        ∷ (
                          log_warn,
                          codes "Telnet session with "
                              ++ (target.host ++ codes " produced no usable data"),
                        )
                        ∷ [];
                  }
                  | p ∷ items ↦ record { result = reached scan; logged = connecting ∷ [] }
                ]))

    unfoldable pub remote_telnet_scan : NeoRemoteTarget → NeoProcessList D → Contact (Scan D)
    unfolding parsed telnet_contact
    remote_telnet_scan target list =
        telnet_contact target (λ log_text logged. parsed log_text logged list)
