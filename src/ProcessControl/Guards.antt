-- ===== src/ProcessControl/Guards.antt =====
-- No system call is made with an argument that would reach other processes than the one meant.
use application_monitoring.Prelude.{
  ℕ, ℤ, pos, negsuc, ◌≡◌, ◌↔◌, true, Option, none, arith, Any, ◌<ℤ◌,
}
use application_monitoring.ProcessControl.{kill, setpriority, process_send_signal, process_renice}

-- `kill` is called exactly when the PID is positive (0 and negative PIDs address process groups), and
-- then with the PID and the signal that were given; the result is success exactly if it was called
-- and succeeded. `setpriority` is never called.
pub process_send_signal_effects :
    (answer : Option ℕ) (pid signal_number p n : ℤ)
    → let (effects, done) = process_send_signal answer pid signal_number in
      (Any (λ e. e ≡ kill p n) effects ↔ ((pos 0 <ℤ pid) × (p ≡ pid) × (n ≡ signal_number)))
      × (¬ (Any (λ e. e ≡ setpriority p n) effects))
      × ((done ≡ true) ↔ ((pos 0 <ℤ pid) × (answer ≡ none)))
unfolding process_send_signal
process_send_signal_effects answer pid signal_number p n = ground arith

-- `setpriority` is called exactly when the PID is positive and the niceness is from -20 to 19, and
-- then with these; the result is success exactly if it was called and succeeded.
pub process_renice_effects :
    (answer : Option ℕ) (pid priority p n : ℤ)
    → let (effects, done) = process_renice answer pid priority in
      (Any (λ e. e ≡ setpriority p n) effects ↔ (
        (pos 0 <ℤ pid)
        × (negsuc 20 <ℤ priority)
        × (priority <ℤ pos 20)
        × (p ≡ pid)
        × (n ≡ priority)))
      × (¬ (Any (λ e. e ≡ kill p n) effects))
      × ((done ≡ true)
          ↔ ((pos 0 <ℤ pid) × (negsuc 20 <ℤ priority) × (priority <ℤ pos 20) × (answer ≡ none)))
unfolding process_renice
process_renice_effects answer pid priority p n = ground arith
