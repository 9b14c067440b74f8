-- ===== src/Output/Tests.antt =====
-- One day, an hour, a minute and a second; and texts in quotes.
use application_monitoring.Prelude.{ℕ, ◌≡◌, refl}
use application_monitoring.Text.{Bytes, codes, copy_bounded}
use application_monitoring.Double.{milli}
use application_monitoring.Output.{
  ElapsedParts, elapsed_parts, format_elapsed, csv_quoted, csv_field, output_json_string,
  escape_byte,
}

abbrev shown : ElapsedParts
shown = elapsed_parts milli 90061500

-- One day and more.
abbrev one : ℕ → Bytes
one n = codes "1"

text : format_elapsed milli one 90061500 64 ≡ codes "1d 01:01:01"
unfolding format_elapsed copy_bounded
text = refl

parts : shown ≡ record { days = 1; hours = 1; minutes = 1; secs = 1 }
unfolding elapsed_parts
parts = refl

quoted : csv_field (codes "a\"b") ≡ codes "\"a\"\"b\""
unfolding csv_quoted
quoted = refl

json : output_json_string (codes "a\n\"") ≡ codes "\"a\\n\\\"\""
unfolding output_json_string escape_byte
json = refl
