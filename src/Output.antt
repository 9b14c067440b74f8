-- ===== src/Output.antt =====
-- src/monitoring_output.c: the texts that the three formats are made of. Numbers with a fraction are
-- formatted by `printf`, and where one stands in a row is not modelled here.
pub mod Elapsed
mod Tests
use application_monitoring.Prelude.{
  ℕ, ◌+◌, ◌-◌, ◌/◌, ◌%◌, ◌<◌, Bool, true, false, List, [], ◌∷◌, ◌++◌, ltb, ◌==◌, if◌then◌else◌,
}
use application_monitoring.Text.{Bytes, codes, copy_bounded}
use application_monitoring.Double.{Double}

unfoldable pub state_name : ℕ → Bytes
state_name state =
    if state == b'R'
    then codes "RUN"
    else if state == b'S'
    then codes "SLEEP"
    else if state == b'D'
    then codes "DISK"
    else if state == b'T'
    then codes "STOP"
    else if state == b't'
    then codes "TRACE"
    else if state == b'Z'
    then codes "ZOMB"
    else if state == b'X'
    then codes "DEAD"
    else if state == b'I'
    then codes "IDLE"
    else codes "?"

-- The four numbers that `format_elapsed` prints.
pub record ElapsedParts : Type 0 where
  pub days : ℕ
  pub hours : ℕ
  pub minutes : ℕ
  pub secs : ℕ

-- total / 86400UL and so on, with `total` reduced after each division.
unfoldable pub split_elapsed : ℕ → ElapsedParts
split_elapsed total =
    let of_day = total % 86400 in
    let of_hour = of_day % 3600 in
    record {
      days = total / 86400;
      hours = of_day / 3600;
      minutes = of_hour / 60;
      secs = of_hour % 60;
    }

-- The numbers for a time, which is 0 where it is negative.
unfoldable pub elapsed_parts : {D : Type 0} → Double D → D → ElapsedParts
unfolding split_elapsed
elapsed_parts F seconds =
    split_elapsed (F.to_ℕ (if F.lt seconds (F.ratio 0 1) then F.ratio 0 1 else seconds))

-- %02lu, for a number below 100.
abbrev pub two_digits : ℕ → Bytes
two_digits n = (b'0' + n / 10) ∷ (b'0' + n % 10) ∷ []

-- `decimal` is %lu.
unfoldable pub format_elapsed : {D : Type 0} → Double D → (ℕ → Bytes) → D → ℕ → Bytes
unfolding elapsed_parts copy_bounded
format_elapsed F decimal seconds size =
    let e = elapsed_parts F seconds in
    let clock =
      two_digits e.hours ++ (b':' ∷ (two_digits e.minutes ++ (b':' ∷ two_digits e.secs))) in
    copy_bounded size (if ltb 0 e.days then decimal e.days ++ (b'd' ∷ b' ' ∷ clock) else clock)

-- The loop that `output_csv` runs over the name and over the command line: quotes are doubled.
unfoldable pub csv_quoted : Bytes → Bytes
csv_quoted [] = []
csv_quoted (c ∷ s) = if c == b'"' then b'"' ∷ b'"' ∷ csv_quoted s else c ∷ csv_quoted s

-- A text in quotes.
abbrev pub csv_field : Bytes → Bytes
csv_field s = b'"' ∷ (csv_quoted s ++ b'"' ∷ [])

-- The 15 fields of a row that `printf` formats, each with its comma.
unfoldable pub csv_numbers : List Bytes → Bytes
csv_numbers [] = []
csv_numbers (f ∷ fields) = f ++ b',' ∷ csv_numbers fields

-- A row without its newline.
abbrev pub csv_row : List Bytes → Bytes → Bytes → Bytes
csv_row fields comm cmdline = csv_numbers fields ++ (csv_field comm ++ b',' ∷ csv_field cmdline)

-- printf("\\u%04x", c) for a byte below 0x20.
abbrev pub hex_digit : ℕ → ℕ
hex_digit n = if ltb n 10 then b'0' + n else b'a' + (n - 10)

unfoldable pub escape_byte : ℕ → Bytes
escape_byte c =
    if c == b'"'
    then b'\\' ∷ b'"' ∷ []
    else if c == b'\\'
    then b'\\' ∷ b'\\' ∷ []
    else if c == 8
    then b'\\' ∷ b'b' ∷ []
    else if c == 12
    then b'\\' ∷ b'f' ∷ []
    else if c == 10
    then b'\\' ∷ b'n' ∷ []
    else if c == 13
    then b'\\' ∷ b'r' ∷ []
    else if c == 9
    then b'\\' ∷ b't' ∷ []
    else if ltb c 32
    then b'\\' ∷ b'u' ∷ b'0' ∷ b'0' ∷ hex_digit (c / 16) ∷ hex_digit (c % 16) ∷ []
    else c ∷ []

escaped : Bytes → Bytes
unfolding escape_byte
escaped [] = []
escaped (c ∷ s) = escape_byte c ++ escaped s

-- A NULL text is printed like an empty one.
unfoldable pub output_json_string : Bytes → Bytes
unfolding escaped
output_json_string text = b'"' ∷ (escaped text ++ b'"' ∷ [])
