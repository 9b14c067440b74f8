-- ===== src/Remote/Commands.antt =====
-- src/monitoring_remote.c: the commands that reach a host. `run_command` (the argument vector, and what it
-- writes to the command's input) is a parameter: the pipes, the fork and the timeout are the system's.
-- `%d` of a port is the parameter `decimal`. Where a function fails, its message is the result.
use application_monitoring.Prelude.{
  ℕ, ℤ, pos, ◌-◌, ltb, List, [], ◌∷◌, ◌++◌, Option, none, some, take, if◌then◌else◌,
}
use application_monitoring.Text.{Bytes, codes, copy_bounded, is_empty}
use application_monitoring.Remote.Session.{neo_sysinfo_marker, neo_csv_marker}
use application_monitoring.Remote.Hosts.{NeoRemoteTarget, default_binary, port_or}

-- What `run_command` gives: the exit code, and what the command wrote (NULL is empty).
pub record Ran : Type 0 where
  pub exit_code : ℤ
  pub out : Bytes
  pub err : Bytes

abbrev pub RunCommand : Type 0
RunCommand = List Bytes → Option Bytes → Ran

-- A function fails with a message, or leads out of bounds where `memcpy` does.
pub data Reached (A : Type 0) : Type 0 where
  reached : A → Reached A
  denied : Bytes → Reached A
  out_of_bounds : Reached A

abbrev pub remote_message_max : ℕ
remote_message_max = 512

-- set_message
abbrev pub fails : {A : Type 0} → Bytes → Reached A
fails text = denied (take (remote_message_max - 1) text)

-- remote_binary[0] ? remote_binary : "app_top_monitoring"
abbrev pub binary_or : Bytes → Bytes
binary_or binary = if is_empty binary then default_binary else binary

-- (text != NULL && text[0] != '\0') ? text : other
abbrev text_or : Bytes → Bytes → Bytes
text_or text other = if is_empty text then other else text

unfoldable pub build_combined_remote_command : ℕ → Bytes → Bytes
unfolding copy_bounded
build_combined_remote_command buffer_size remote_binary = copy_bounded buffer_size (
    codes "echo "
    ++ (neo_sysinfo_marker
        ++ (codes "; grep '^MemTotal:' /proc/meminfo; nproc; echo "
            ++ (neo_csv_marker
                ++ (codes "; " ++ (binary_or remote_binary ++ codes " --csv --once"))))))

unfoldable pub build_user_host : Bytes → Bytes → ℕ → Bytes
unfolding copy_bounded
build_user_host user host buffer_size =
    copy_bounded buffer_size (if is_empty user then host else user ++ (b'@' ∷ host))

module _ (decimal : ℤ → Bytes) where
  -- The vector without its final NULL; `none` where it does not fit.
  unfoldable pub build_ssh_argv : NeoRemoteTarget → Bytes → ℕ → ℕ → ℕ → Option (List Bytes)
  unfolding build_user_host
  build_ssh_argv target remote_command argv_capacity user_host_buf_size port_buf_size =
      if ltb argv_capacity 12
      then none
      else some (
          codes "ssh"
          ∷ codes "-p"
          ∷ copy_bounded port_buf_size (decimal (port_or target.port (pos 22)))
          ∷ codes "-o"
          ∷ codes "BatchMode=yes"
          ∷ codes "-o"
          ∷ codes "ConnectTimeout=5"
          ∷ codes "-o"
          ∷ codes "StrictHostKeyChecking=accept-new"
          ∷ ((if is_empty target.identity_file then [] else codes "-i" ∷ target.identity_file ∷ [])
              ++ (build_user_host target.user target.host user_host_buf_size
                  ∷ remote_command
                  ∷ [])))
