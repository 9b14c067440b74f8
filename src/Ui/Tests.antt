-- ===== src/Ui/Tests.antt =====
-- Keys and raw mode on concrete values.
use application_monitoring.Prelude.{ℕ, refl, true, false, List, [], ◌∷◌, arith}
use application_monitoring.Double.{milli, milli-IsOrdered}
use application_monitoring.Examples.{start_config}
use application_monitoring.Ui.{Termios, TerminalState, Tty}
use application_monitoring.Ui.Keys.{IsScaling, InRange, press, press-InRange}

milli-IsScaling : IsScaling milli
milli-IsScaling = record {
  doubling_grows = λ a h. ground arith;
  halving_shrinks = λ a h. ground arith;
  zero_le_min = refl;
  min_le_max = refl;
}

abbrev keys : List ℕ
keys = b'+' ∷ b'+' ∷ b'+' ∷ b'+' ∷ b'+' ∷ b'-' ∷ []

press-InRange_example : InRange milli (press milli start_config keys).interval
press-InRange_example =
    press-InRange milli milli-IsOrdered milli-IsScaling start_config keys (refl, refl)

abbrev cooked : Termios
cooked = record { icanon = true; echo = true; opost = true; vmin = 1; vtime = 0 }

abbrev fresh : TerminalState
fresh = record { attributes = cooked; original_terminal = cooked; terminal_configured = false }

abbrev answers : Tty
answers = record { interactive = true; tcgetattr_ok = true; tcsetattr_ok = true }
