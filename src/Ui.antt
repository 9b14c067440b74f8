-- ===== src/Ui.antt =====
-- src/monitoring_ui.c: the raw mode of the terminal and the interactive keys. Escape sequences that
-- move the cursor or clear the screen are output and are not modelled.
pub mod Keys
pub mod RawMode
mod Tests
use application_monitoring.Prelude.{ℕ, Bool, true, false, not, ◌&&◌, ◌||◌, ◌==◌, if◌then◌else◌}
use application_monitoring.Double.{Double}
use application_monitoring.Types.{NeoConfig, sort_cpu, sort_mem, sort_pid}
use application_monitoring.Config.{min_interval, max_interval}

-- The attributes that `ui_setup` changes.
pub record Termios : Type 0 where
  pub icanon : Bool
  pub echo : Bool
  pub opost : Bool
  pub vmin : ℕ
  pub vtime : ℕ

-- `attributes` is what the terminal driver holds; the other two are the static variables.
pub record TerminalState : Type 0 where
  pub attributes : Termios
  pub original_terminal : Termios
  pub terminal_configured : Bool

-- What the environment answers: is this a terminal, and do the two calls succeed?
pub record Tty : Type 0 where
  pub interactive : Bool
  pub tcgetattr_ok : Bool
  pub tcsetattr_ok : Bool

-- The result is true for 0 and false for -1.
unfoldable pub ui_setup : Tty → TerminalState → TerminalState × Bool
ui_setup tty s =
    if not tty.interactive
    then (s, true)
    else if s.terminal_configured
    then (s, true)
    else if not tty.tcgetattr_ok
    then (s, false)
    else if not tty.tcsetattr_ok
    then (record s { original_terminal = s.attributes }, false)
    else (
      record {
        attributes = record { icanon = false; echo = false; opost = true; vmin = 0; vtime = 0 };
        original_terminal = s.attributes;
        terminal_configured = true;
      },
      true,
    )

-- The result of `tcsetattr` is ignored.
unfoldable pub ui_restore : Tty → TerminalState → TerminalState
ui_restore tty s = if not s.terminal_configured then s else record s {
  attributes = if tty.tcsetattr_ok then s.original_terminal else s.attributes;
  terminal_configured = false;
}

-- What a key does: the configuration, `*force_refresh`, and whether to go on.
pub record KeyResult (D : Type 0) : Type 0 where
  pub config : NeoConfig D
  pub force_refresh : Bool
  pub go_on : Bool

abbrev refresh : {D : Type 0} → NeoConfig D → KeyResult D
refresh config = record { config = config; force_refresh = true; go_on = true }

module _ {D : Type 0} (F : Double D) where
  -- config->interval *= 2.0, up to MAX_INTERVAL
  longer_interval : D → D
  longer_interval interval =
      let doubled = F.mul interval (F.ratio 2 1) in
      if F.lt (max_interval F) doubled then max_interval F else doubled

  -- config->interval /= 2.0, down to MIN_INTERVAL
  shorter_interval : D → D
  shorter_interval interval =
      let halved = F.div interval (F.ratio 2 1) in
      if F.lt halved (min_interval F) then min_interval F else halved

  unfoldable pub ui_handle_key : NeoConfig D → ℕ → KeyResult D
  unfolding longer_interval shorter_interval
  ui_handle_key config key =
      if key == b'q' || key == b'Q'
      then record { config = config; force_refresh = false; go_on = false }
      else if key == b'c' || key == b'C'
      then refresh (record config { sort_mode = sort_cpu })
      else if key == b'm' || key == b'M'
      then refresh (record config { sort_mode = sort_mem })
      else if key == b'p' || key == b'P'
      then refresh (record config { sort_mode = sort_pid })
      else if key == b'+'
      then refresh (record config { interval = longer_interval config.interval })
      else if key == b'-'
      then refresh (record config { interval = shorter_interval config.interval })
      else if key == b'r' || key == b'R'
      then refresh config
      else if key == b'v' || key == b'V'
      then refresh (record config { reverse = not config.reverse })
      else record { config = config; force_refresh = false; go_on = true }
