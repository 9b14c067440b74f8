-- ===== src/ProcessControl/Tests.antt =====
-- Signals on concrete values.
use application_monitoring.Prelude.{ℕ, pos, ◌≡◌, ◌↔◌, true, Option, none, some, Any, ◌<ℤ◌}
use application_monitoring.ProcessControl.{kill, setpriority, process_send_signal}
use application_monitoring.ProcessControl.Guards.{process_send_signal_effects}

abbrev answered : Option ℕ
answered = none

abbrev denied : Option ℕ
denied = some 13

process_send_signal_effects_example :
    let (effects, done) = process_send_signal answered (pos 42) (pos 15) in
    (Any (λ e. e ≡ kill (pos 42) (pos 15)) effects
      ↔ ((pos 0 <ℤ pos 42) × (pos 42 ≡ pos 42) × (pos 15 ≡ pos 15)))
    × (¬ (Any (λ e. e ≡ setpriority (pos 42) (pos 15)) effects))
    × ((done ≡ true) ↔ ((pos 0 <ℤ pos 42) × (answered ≡ none)))
process_send_signal_effects_example =
    process_send_signal_effects answered (pos 42) (pos 15) (pos 42) (pos 15)
