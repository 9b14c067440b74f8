-- ===== src/Filter/Tests.antt =====
-- The filters on concrete processes.
use application_monitoring.Prelude.{pos, ◌≡◌, refl, ◌↔◌, true, false, [], ◌∷◌}
use application_monitoring.Text.{codes}
use application_monitoring.Types.{NeoConfig}
use application_monitoring.Prelude.{ℕ}
use application_monitoring.Examples.{start_config, process_of}
use application_monitoring.Filter.{
  filter_contains_ci, filter_match_patterns, filter_match_excludes, process_matches,
}
use application_monitoring.Filter.Substring.{Occurs, filter_contains_ci_iff}
use application_monitoring.Filter.Accepted.{Accepted, process_matches_iff}

filter_contains_ci-iff_example :
    (filter_contains_ci (codes "/usr/sbin/sshd") (codes "SSH") ≡ true)
    ↔ Occurs (codes "SSH") (codes "/usr/sbin/sshd")
filter_contains_ci-iff_example = filter_contains_ci_iff (codes "/usr/sbin/sshd") (codes "SSH")

found : filter_contains_ci (codes "/usr/sbin/sshd") (codes "SSH") ≡ true
unfolding filter_contains_ci
found = refl

abbrev ssh_only : NeoConfig ℕ
ssh_only = record start_config {
  patterns = codes "ssh" ∷ [];
  exclude_patterns = codes "agent" ∷ [];
}

process_matches-iff_example :
    (process_matches ssh_only (process_of (pos 7) (codes "sshd") 0) ≡ true)
    ↔ Accepted ssh_only (process_of (pos 7) (codes "sshd") 0)
process_matches-iff_example = process_matches_iff ssh_only (process_of (pos 7) (codes "sshd") 0)

excluded : process_matches ssh_only (process_of (pos 8) (codes "ssh-agent") 0) ≡ false
unfolding process_matches filter_match_patterns filter_match_excludes filter_contains_ci
excluded = refl
