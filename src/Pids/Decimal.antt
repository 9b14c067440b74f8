-- ===== src/Pids/Decimal.antt =====
-- Decimal numbers as PIDs.
use application_monitoring.Prelude.{
  ℕ, pos, ◌+◌, ◌-◌, ◌*◌, ◌^◌, ◌<◌, ◌≡◌, refl, true, false, [], ◌∷◌, some, arith, to_int32, All,
}
use application_monitoring.Text.{Bytes}
use application_monitoring.Text.Numbers.{is_digit, read_digits, strtol}
use application_monitoring.Pids.{parse_pid_path}

-- The number that digits spell behind `n`.
abbrev pub value : ℕ → Bytes → ℕ
value n [] = n
value n (c ∷ s) = value (n * 10 + (c - b'0')) s

abbrev pub AllDigits : Bytes → Type 0
AllDigits = All (λ c. is_digit c ≡ true)

read_digits-value : (s : Bytes) (n : ℕ) → AllDigits s → read_digits n s ≡ (value n s, [])
unfolding read_digits
read_digits-value [] n h = refl
read_digits-value (c ∷ s) n (d, h) = ground (arith, read_digits-value s (n * 10 + (c - b'0')) h)

strtol-digits :
    (c : ℕ) (s : Bytes)
    → AllDigits (c ∷ s)
    → value 0 (c ∷ s) < 2 ^ 63
    → strtol (c ∷ s)
      ≡ record { value = pos (value 0 (c ∷ s)); rest = []; found = true; erange = false }
unfolding strtol
strtol-digits c s h fits = ground (arith, read_digits-value (c ∷ s) 0 h, h.0)

-- A name of digits alone whose number is positive and fits a `long` is taken as a PID: the number's
-- low 32 bits as an `int`. So below 2^31 it is the number itself, and from 2^32 on it is another.
pub parse_pid_path-digits :
    (s : Bytes)
    → AllDigits s
    → 0 < value 0 s
    → value 0 s < 2 ^ 63
    → parse_pid_path s ≡ some (to_int32 (value 0 s))
unfolding parse_pid_path
parse_pid_path-digits [] h positive fits = absurd (omega arith)
parse_pid_path-digits (c ∷ s) h positive fits = rw (strtol-digits c s h fits) (ground arith)
