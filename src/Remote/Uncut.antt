-- ===== src/Remote/Uncut.antt =====
-- The buffers of the commands are large enough.
use application_monitoring.Prelude.{
  ℕ, ◌+◌, ◌-◌, ◌≤◌, ◌<◌, ◌≡◌, refl, sym, ◌∙◌, ap, [], ◌∷◌, ◌++◌, length, length-append, append-nil,
  arith, if◌then◌else◌,
}
use application_monitoring.Text.{Bytes, codes, copy_bounded_of_lt, copy_bounded-lt, is_empty}
use application_monitoring.Types.{NeoConfig, max_host, max_user, max_remote_path}
use application_monitoring.Remote.Session.{neo_sysinfo_marker, neo_csv_marker}
use application_monitoring.Remote.Hosts.{NeoRemoteTarget, build_remote_target}
use application_monitoring.Remote.Commands.{
  binary_or, build_combined_remote_command, build_user_host,
}
use application_monitoring.Remote.Contact.{script_append, telnet_script}

-- The texts of the target fit their arrays.
pub record FitsArrays (target : NeoRemoteTarget) : Type 0 where
  pub host_fits : length target.host < max_host
  pub user_fits : length target.user < max_user
  pub password_fits : length target.password < max_user
  pub binary_fits : length target.remote_binary < max_remote_path

pub build_remote_target-FitsArrays :
    {D : Type 0} (config : NeoConfig D) → FitsArrays (build_remote_target config)
unfolding build_remote_target
build_remote_target-FitsArrays config = record {
  host_fits = copy_bounded-lt max_host config.remote_host (omega arith);
  user_fits = copy_bounded-lt max_user config.remote_user (omega arith);
  password_fits = copy_bounded-lt max_user config.remote_password (omega arith);
  binary_fits = copy_bounded-lt max_remote_path _ (omega arith);
}

-- The command with the whole name of the tool.
abbrev pub combined_command : Bytes → Bytes
combined_command binary =
    codes "echo "
    ++ (neo_sysinfo_marker
        ++ (codes "; grep '^MemTotal:' /proc/meminfo; nproc; echo "
            ++ (neo_csv_marker ++ (codes "; " ++ (binary ++ codes " --csv --once")))))

-- A line of the script, for a text that is not empty.
abbrev pub script_line : Bytes → Bytes
script_line text = if is_empty text then [] else text ++ (10 ∷ [])

-- The whole session.
abbrev pub whole_script : NeoRemoteTarget → Bytes
whole_script target =
    ((script_line target.user ++ script_line target.password)
      ++ (combined_command (binary_or target.remote_binary) ++ (10 ∷ [])))
    ++ (codes "exit" ++ (10 ∷ []))

binary_or-lt :
    (binary : Bytes) → length binary < max_remote_path → length (binary_or binary) < max_remote_path
binary_or-lt [] h = omega arith
binary_or-lt (c ∷ binary) h = h

combined_command-length : (binary : Bytes) → length (combined_command binary) ≡ 121 + length binary
combined_command-length binary = omega (arith, length-append binary (codes " --csv --once"))

build_combined_remote_command-whole :
    (binary : Bytes)
    → length binary < max_remote_path
    → build_combined_remote_command (max_remote_path + 128) binary
      ≡ combined_command (binary_or binary)
unfolding build_combined_remote_command
build_combined_remote_command-whole binary h =
    copy_bounded_of_lt (max_remote_path + 128) (combined_command (binary_or binary))
      (omega (arith, combined_command-length (binary_or binary), binary_or-lt binary h))

-- What is written so far, with its offset, within the script's array.
abbrev Written : Bytes → Bytes × ℕ → Type 0
Written text script = (script.0 ≡ text) × (script.1 ≡ length text)

script_append-Written :
    (text line : Bytes) (script : Bytes × ℕ)
    → Written text script
    → length text + length line < 2200
    → Written (text ++ line) (script_append script line)
script_append-Written text line (buffer, offset) (h, k) fits = (
  rw (h, copy_bounded_of_lt (2200 - offset) line (omega (arith, k, fits))) refl,
  omega (arith, k, length-append text line),
)

script_line-Written :
    (text word : Bytes) (script : Bytes × ℕ)
    → Written text script
    → length text + length word + 1 < 2200
    → Written
        (text ++ script_line word)
        (if is_empty word then script else script_append script (word ++ (10 ∷ [])))
script_line-Written text [] (buffer, offset) (h, k) fits =
    (h ∙ sym (append-nil text), k ∙ ap length (sym (append-nil text)))
script_line-Written text (c ∷ word) script h fits =
    script_append-Written text (c ∷ (word ++ (10 ∷ []))) script h
      (omega (arith, fits, length-append word (10 ∷ [])))

user_host-lt :
    (user host : Bytes)
    → length user < max_user
    → length host < max_host
    → length (if is_empty user then host else user ++ (b'@' ∷ host)) < max_host + max_user + 2
user_host-lt [] host h k = omega (arith, k)
user_host-lt (c ∷ user) host h k = omega (arith, h, k, length-append user (b'@' ∷ host))

script_line-length : (word : Bytes) → length (script_line word) ≤ length word + 1
script_line-length [] = omega arith
script_line-length (c ∷ word) = omega (arith, length-append word (10 ∷ []))

-- Of a target whose texts fit their arrays, no buffer cuts anything off: the command that the remote shell
-- runs has the whole name of the tool, the user and the host are whole, and the script of a Telnet session
-- has all of its lines, in 2200 bytes.
pub commands_whole :
    (target : NeoRemoteTarget)
    → FitsArrays target
    → (build_combined_remote_command (max_remote_path + 128) target.remote_binary
        ≡ combined_command (binary_or target.remote_binary))
      × (build_user_host target.user target.host (max_host + max_user + 2)
          ≡ (if is_empty target.user then target.host else target.user ++ (b'@' ∷ target.host)))
      × ((telnet_script target
            (build_combined_remote_command (max_remote_path + 128) target.remote_binary)).0
          ≡ whole_script target)
      × ((telnet_script target
            (build_combined_remote_command (max_remote_path + 128) target.remote_binary)).1
          < 2200)
unfolding build_user_host telnet_script
commands_whole target f =
    let command = combined_command (binary_or target.remote_binary) in
    let size = combined_command-length (binary_or target.remote_binary) in
    let small = binary_or-lt target.remote_binary f.binary_fits in
    let whole = build_combined_remote_command-whole target.remote_binary f.binary_fits in
    let user_size = script_line-length target.user in
    let password_size = script_line-length target.password in
    let both = length-append (script_line target.user) (script_line target.password) in
    let named =
      script_line-Written [] target.user ([], 0) (refl, refl) (omega (arith, f.user_fits)) in
    let known =
      script_line-Written (script_line target.user) target.password _ named
        (omega (arith, user_size, f.user_fits, f.password_fits)) in
    let credentials = script_line target.user ++ script_line target.password in
    let asked = script_append-Written credentials (command ++ (10 ∷ [])) _ known (
      omega (
        arith,
        size,
        small,
        user_size,
        password_size,
        both,
        f.user_fits,
        f.password_fits,
        length-append command (10 ∷ []),
      )) in
    let left =
      script_append-Written (credentials ++ (command ++ (10 ∷ []))) (codes "exit" ++ (10 ∷ [])) _
        asked
        (omega (
          arith,
          size,
          small,
          user_size,
          password_size,
          both,
          f.user_fits,
          f.password_fits,
          length-append command (10 ∷ []),
          length-append credentials (command ++ (10 ∷ [])),
        )) in
    (
      whole,
      copy_bounded_of_lt (max_host + max_user + 2) _
          (user_host-lt target.user target.host f.user_fits f.host_fits),
      rw whole left.0,
      rw whole (
          omega (
            arith,
            left.1,
            size,
            small,
            user_size,
            password_size,
            both,
            f.user_fits,
            f.password_fits,
            length-append command (10 ∷ []),
            length-append credentials (command ++ (10 ∷ [])),
            length-append (credentials ++ (command ++ (10 ∷ []))) (codes "exit" ++ (10 ∷ [])),
          )),
    )
