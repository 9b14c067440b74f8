-- ===== src/Pids/Tests.antt =====
-- PIDs and state filters from concrete arguments.
use application_monitoring.Prelude.{pos, ◌≡◌, refl, true, false, [], ◌∷◌}
use application_monitoring.Text.{codes, tokens}
use application_monitoring.Pids.{parse_states, parse_pid_list}

stopped : parse_states [] (codes "r,S,t") ≡ codes "RST"
unfolding parse_states
stopped = refl

listed : parse_pid_list true (λ n. true) [] (codes "3,44,x,5") ≡ (pos 3 ∷ pos 44 ∷ [], false)
unfolding parse_pid_list tokens
listed = refl
