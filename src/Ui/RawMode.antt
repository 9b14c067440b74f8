-- ===== src/Ui/RawMode.antt =====
-- Raw mode is left as it was entered.
use application_monitoring.Prelude.{
  ◌≡◌, refl, true, false, List, [], ◌∷◌, arith, ◌⊎◌, inl, inr, ◌∙◌,
}
use application_monitoring.Ui.{TerminalState, Tty, ui_setup, ui_restore}

-- Any number of calls of `ui_setup`, with whatever the environment answers to each.
unfoldable pub setups : List Tty → TerminalState → TerminalState
setups [] s = s
setups (tty ∷ rest) s = setups rest (ui_setup tty s).0

configured_stays :
    (ttys : List Tty) (s : TerminalState) → s.terminal_configured ≡ true → setups ttys s ≡ s
unfolding setups ui_setup
configured_stays [] s h = refl
configured_stays (tty ∷ rest) s h =
    let same : (ui_setup tty s).0 ≡ s = ground (arith, h) in rw same (configured_stays rest s h)

-- A first call enters raw mode and keeps the attributes, or leaves the terminal alone.
ui_setup_cases :
    (tty : Tty) (s : TerminalState)
    → s.terminal_configured ≡ false
    → let s' = (ui_setup tty s).0 in
      ((s'.terminal_configured ≡ true) × (s'.original_terminal ≡ s.attributes))
      ⊎ ((s'.terminal_configured ≡ false) × (s'.attributes ≡ s.attributes))
unfolding ui_setup
ui_setup_cases tty s h = ground (arith, h)

-- However often `ui_setup` is called first, and whether it succeeds or not, `ui_restore` gives the
-- terminal the attributes back that it had before, if its own `tcsetattr` succeeds.
pub ui_restore-setups :
    (ttys : List Tty) (last : Tty) (s : TerminalState)
    → s.terminal_configured ≡ false
    → last.tcsetattr_ok ≡ true
    → ((ui_restore last (setups ttys s)).attributes ≡ s.attributes)
      × ((ui_restore last (setups ttys s)).terminal_configured ≡ false)
unfolding setups ui_restore
ui_restore-setups [] last s h k = ground (arith, h)
ui_restore-setups (tty ∷ rest) last s h k = elim (ui_setup_cases tty s h) [
  | inl (c, kept) ↦ rw (configured_stays rest (ui_setup tty s).0 c) (ground (arith, c, kept))
  | inr (c, same) ↦
      let (attributes, off) = ui_restore-setups rest last (ui_setup tty s).0 c k in
      (attributes ∙ same, off)
]
