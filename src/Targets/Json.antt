-- ===== src/Targets/Json.antt =====
-- src/monitoring_targets.c: the strings of the file of targets. The reader is the part of its data that
-- is not read yet.
use application_monitoring.Prelude.{
  ℕ, ◌+◌, ◌-◌, ◌/◌, ◌%◌, true, false, [], ◌∷◌, ◌++◌, Option, none, some, ltb, ◌==◌, if◌then◌else◌,
}
use application_monitoring.Text.{Bytes, put}
use application_monitoring.Text.Numbers.{isspace}

unfoldable pub json_skip_ws : Bytes → Bytes
json_skip_ws [] = []
json_skip_ws (c ∷ s) = if isspace c then json_skip_ws s else c ∷ s

-- `none` if another byte comes next, or none at all; white space is passed over.
unfoldable pub json_consume : Bytes → ℕ → Option Bytes
unfolding json_skip_ws
json_consume reader expected = elim (json_skip_ws reader) [
  | [] ↦ none
  | c ∷ s ↦ if c == expected then some s else none
]

-- The byte that an escape stands for.
unfoldable pub unescaped : ℕ → ℕ
unescaped c = if c == b'n' then 10 else if c == b't' then 9 else if c == b'r' then 13 else c

-- The loop, which ends at a quote or at the end of the data. A backslash at the very end is kept.
unfoldable pub json_string_loop : ℕ → Bytes → Bytes → Bytes × Bytes
unfolding unescaped
json_string_loop out_size out [] = (out, [])
json_string_loop out_size out (c ∷ []) =
    if c == b'"' then (out, c ∷ []) else (put out_size out c, [])
json_string_loop out_size out (c ∷ d ∷ p) = elim (c == b'"') [
  | true ↦ (out, c ∷ d ∷ p)
  | false ↦ elim (c == b'\\') [
    | true ↦ json_string_loop out_size (put out_size out (unescaped d)) p
    | false ↦ json_string_loop out_size (put out_size out c) (d ∷ p)
  ]
]

-- For an `out` that is not NULL.
unfoldable pub json_read_string : ℕ → Bytes → Option (Bytes × Bytes)
unfolding json_consume json_string_loop
json_read_string out_size reader = elim (json_consume reader b'"') [
  | none ↦ none
  | some text ↦ elim (json_consume (json_string_loop out_size [] text).1 b'"') [
    | none ↦ none
    | some rest ↦ some ((json_string_loop out_size [] text).0, rest)
  ]
]

abbrev hex_digit : ℕ → ℕ
hex_digit n = if ltb n 10 then b'0' + n else b'a' + (n - 10)

unfoldable pub json_escape : ℕ → Bytes
json_escape c =
    if c == b'"'
    then b'\\' ∷ b'"' ∷ []
    else if c == b'\\'
    then b'\\' ∷ b'\\' ∷ []
    else if c == 10
    then b'\\' ∷ b'n' ∷ []
    else if c == 13
    then b'\\' ∷ b'r' ∷ []
    else if c == 9
    then b'\\' ∷ b't' ∷ []
    else if ltb c 32
    then b'\\' ∷ b'u' ∷ b'0' ∷ b'0' ∷ hex_digit (c / 16) ∷ hex_digit (c % 16) ∷ []
    else c ∷ []

unfoldable pub json_escapes : Bytes → Bytes
json_escapes [] = []
json_escapes (c ∷ s) = json_escape c ++ json_escapes s

-- What is written to the file.
unfoldable pub json_write_string : Bytes → Bytes
json_write_string text = b'"' ∷ (json_escapes text ++ b'"' ∷ [])
