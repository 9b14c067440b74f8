-- ===== src/Remote/Fresh.antt =====
-- What a scan of a remote host brings has nothing of the list that it is given.
use mathlib.Core.Path.{fun_ext}
use application_monitoring.Prelude.{
  ℕ, ℤ, ◌≡◌, refl, ap, Bool, true, false, List, Bool-cases, Option-cases, inl, inr, ltb, length,
}
use application_monitoring.Text.{Bytes}
use application_monitoring.Double.{Double}
use application_monitoring.Types.{NeoProcessList, NeoLogLevel}
use application_monitoring.Remote.{parse_csv_output}
use application_monitoring.Remote.Hosts.{NeoRemoteTarget}
use application_monitoring.Remote.Commands.{RunCommand}
use application_monitoring.Remote.Session.{
  find_last_occurrence, block_system, neo_sysinfo_marker, neo_csv_marker, parse_combined_output,
}
use application_monitoring.Remote.Contact.{
  Contact, Reading, Scan, parsed, ssh_contact, telnet_contact, remote_ssh_scan, remote_telnet_scan,
}

module _ (decimal : ℤ → Bytes) (run_command : RunCommand) {D : Type 0} (F : Double D)
    (strtod : Bytes → D) (block_copied : Bool) where
  parsed_fresh :
      (rows_copied : Bool) (malloc room : ℕ → Bool) (log_text : Bytes)
      (logged : List (NeoLogLevel × Bytes)) (list list' : NeoProcessList D) (out : Bytes)
      (go_on : Scan D → Contact (Scan D))
      → parsed decimal run_command F strtod block_copied rows_copied malloc room log_text logged
          list out go_on
        ≡ parsed decimal run_command F strtod block_copied rows_copied malloc room log_text logged
            list' out go_on
  unfolding parsed parse_combined_output parse_csv_output
  parsed_fresh true malloc room log_text logged list list' out go_on = refl
  parsed_fresh false malloc room log_text logged list list' out go_on =
      elim (Option-cases (find_last_occurrence out neo_sysinfo_marker)) [
        | inl e ↦ rw (parsed, parse_combined_output, e) refl
        | inr (start, e) ↦ elim (Option-cases (find_last_occurrence out neo_csv_marker)) [
          | inl f ↦ rw (parsed, parse_combined_output, e, f) refl
          | inr (csv_start, f) ↦ elim (Bool-cases (ltb (length csv_start) (length start))) [
            | inr g ↦ rw (parsed, parse_combined_output, e, f, g) refl
            | inl g ↦
                elim (Option-cases
                  (block_system F strtod block_copied false malloc room start csv_start)) [
                    | inl h ↦ rw (parsed, parse_combined_output, e, f, g, h) refl
                    | inr (system, h) ↦ rw (parsed, parse_combined_output, e, f, g, h) refl
                  ]
          ]
        ]
      ]

  reading_fresh :
      (rows_copied : Bool) (malloc room : ℕ → Bool) (list list' : NeoProcessList D)
      → ◌≡◌ {A = Reading D}
          (λ log_text logged.
            parsed decimal run_command F strtod block_copied rows_copied malloc room log_text logged
              list)
          (λ log_text logged.
            parsed decimal run_command F strtod block_copied rows_copied malloc room log_text logged
              list')
  reading_fresh rows_copied malloc room list list' = fun_ext (λ log_text. fun_ext (λ logged.
      fun_ext (λ out.
        fun_ext
          (λ go_on. parsed_fresh rows_copied malloc room log_text logged list list' out go_on))))

  pub remote_ssh_scan_fresh :
      (rows_copied : Bool) (malloc room : ℕ → Bool) (target : NeoRemoteTarget)
      (list list' : NeoProcessList D)
      → remote_ssh_scan decimal run_command F strtod block_copied rows_copied malloc room target
          list
        ≡ remote_ssh_scan decimal run_command F strtod block_copied rows_copied malloc room target
            list'
  unfolding remote_ssh_scan
  remote_ssh_scan_fresh rows_copied malloc room target list list' =
      ap (ssh_contact decimal run_command F strtod block_copied rows_copied malloc room target)
        (reading_fresh rows_copied malloc room list list')

  pub remote_telnet_scan_fresh :
      (rows_copied : Bool) (malloc room : ℕ → Bool) (target : NeoRemoteTarget)
      (list list' : NeoProcessList D)
      → remote_telnet_scan decimal run_command F strtod block_copied rows_copied malloc room target
          list
        ≡ remote_telnet_scan decimal run_command F strtod block_copied rows_copied malloc room
            target list'
  unfolding remote_telnet_scan
  remote_telnet_scan_fresh rows_copied malloc room target list list' =
      ap (telnet_contact decimal run_command F strtod block_copied rows_copied malloc room target)
        (reading_fresh rows_copied malloc room list list')
