-- ===== src/Output/Elapsed.antt =====
-- The elapsed time that is shown.
use application_monitoring.Prelude.{ℕ, ◌+◌, ◌*◌, ◌-◌, none, some, get_elem?}
use application_monitoring.Text.{Bytes}
use application_monitoring.Double.{Double}

-- The digit at a place of a text, as a number.
abbrev pub digit : ℕ → Bytes → ℕ
digit i text = elim (get_elem? text i) [ none ↦ 0 | some c ↦ c - b'0' ]

-- What a clock of the form hh:mm:ss says, in seconds.
abbrev pub clock_seconds : Bytes → ℕ
clock_seconds text =
    (digit 0 text * 10 + digit 1 text) * 3600
    + (digit 3 text * 10 + digit 4 text) * 60
    + (digit 6 text * 10 + digit 7 text)
