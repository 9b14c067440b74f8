-- ===== src/Targets/Strings.antt =====
-- A string that is written to the file of targets is read back.
use application_monitoring.Prelude.{
  ℕ, ◌+◌, ◌<◌, ◌≡◌, ◌⊎◌, refl, sym, ◌||◌, Bool, true, false, [], ◌∷◌, ◌++◌, append_assoc,
  append-nil, some, arith, leb, ◌==◌, Bool-cases, inl, inr, length, length-append, All,
}
use application_monitoring.Text.{Bytes, put, put_fits}
use application_monitoring.Targets.Json.{
  json_consume, unescaped, json_string_loop, json_read_string, json_escape, json_escapes,
  json_write_string,
}

-- Printable bytes, and the three control characters that have an escape of one letter.
abbrev pub is_kept : ℕ → Bool
is_kept c = leb 32 c || c == 10 || c == 13 || c == 9

-- How a byte is written: as an escape that stands for it, or as itself.
json_escape-cases :
    (c : ℕ)
    → is_kept c ≡ true
    → ((d : ℕ) × (json_escape c ≡ b'\\' ∷ d ∷ []) × (unescaped d ≡ c))
      ⊎ ((json_escape c ≡ c ∷ []) × (c == b'"' ≡ false) × (c == b'\\' ≡ false))
unfolding json_escape unescaped
json_escape-cases c h = elim (Bool-cases (c == b'"')) [
  | inl e ↦ inl (b'"', rw e refl, ground (arith, e))
  | inr e ↦ elim (Bool-cases (c == b'\\')) [
    | inl f ↦ inl (b'\\', rw (e, f) refl, ground (arith, f))
    | inr f ↦ elim (Bool-cases (c == 10)) [
      | inl g ↦ inl (b'n', rw (e, f, g) refl, ground (arith, g))
      | inr g ↦ elim (Bool-cases (c == 13)) [
        | inl k ↦ inl (b'r', rw (e, f, g, k) refl, ground (arith, k))
        | inr k ↦ elim (Bool-cases (c == 9)) [
          | inl l ↦ inl (b't', rw (e, f, g, k, l) refl, ground (arith, l))
          | inr l ↦ inr (ground (arith, e, f, g, k, l), e, f)
        ]
      ]
    ]
  ]
]

json_string_loop-escape :
    (n : ℕ) (out : Bytes) (d : ℕ) (p : Bytes)
    → json_string_loop n out (b'\\' ∷ d ∷ p) ≡ json_string_loop n (put n out (unescaped d)) p
unfolding json_string_loop
json_string_loop-escape n out d p = refl

json_string_loop-plain :
    (n : ℕ) (out : Bytes) (c : ℕ) (p : Bytes)
    → c == b'"' ≡ false
    → c == b'\\' ≡ false
    → json_string_loop n out (c ∷ p) ≡ json_string_loop n (put n out c) p
unfolding json_string_loop
json_string_loop-plain n out c [] e f = rw (json_string_loop, e) refl
json_string_loop-plain n out c (d ∷ p) e f = rw (json_string_loop, e, f) refl

json_string_loop-end :
    (n : ℕ) (out rest : Bytes) → json_string_loop n out (b'"' ∷ rest) ≡ (out, b'"' ∷ rest)
unfolding json_string_loop
json_string_loop-end n out [] = refl
json_string_loop-end n out (c ∷ rest) = refl

-- A byte that is written is read back.
json_string_loop-json_escape :
    (n : ℕ) (out : Bytes) (c : ℕ) (p : Bytes)
    → is_kept c ≡ true
    → json_string_loop n out (json_escape c ++ p) ≡ json_string_loop n (put n out c) p
json_string_loop-json_escape n out c p h = elim (json_escape-cases c h) [
  | inl (d, e, same) ↦
      let read : json_string_loop n out (b'\\' ∷ d ∷ p) ≡ json_string_loop n (put n out c) p =
        rw (json_string_loop-escape n out d p, same) refl in
      rw e read
  | inr (e, f, g) ↦
      let read : json_string_loop n out (c ∷ p) ≡ json_string_loop n (put n out c) p =
        json_string_loop-plain n out c p f g in
      rw e read
]

json_string_loop-json_escapes :
    (n : ℕ) (out s rest : Bytes)
    → All (λ c. is_kept c ≡ true) s
    → length out + length s < n
    → json_string_loop n out (json_escapes s ++ b'"' ∷ rest) ≡ (out ++ s, b'"' ∷ rest)
unfolding json_escapes
json_string_loop-json_escapes n out [] rest h fits =
    rw (append-nil out) (json_string_loop-end n out rest)
json_string_loop-json_escapes n out (c ∷ s) rest (k, h) fits =
    let stored : put n out c ≡ out ++ c ∷ [] = put_fits n out c (omega (arith, fits)) in
    let later =
      json_string_loop-json_escapes n (out ++ c ∷ []) s rest h
        (omega (arith, fits, length-append out (c ∷ []))) in
    rw
      (
        append_assoc (json_escape c) (json_escapes s) (b'"' ∷ rest),
        json_string_loop-json_escape n out c (json_escapes s ++ b'"' ∷ rest) k,
        stored,
        sym (append_assoc out (c ∷ []) s),
      )
      later

-- A text that fits its array, of printable bytes, newlines, carriage returns and tabs, is read back
-- whole from the string that is written for it, and the reader is behind the string.
pub json_read_string-json_write_string :
    (out_size : ℕ) (s rest : Bytes)
    → All (λ c. is_kept c ≡ true) s
    → length s < out_size
    → json_read_string out_size (json_write_string s ++ rest) ≡ some (s, rest)
unfolding json_read_string json_consume json_write_string
json_read_string-json_write_string out_size s rest h fits =
    let body : json_string_loop out_size [] ((json_escapes s ++ b'"' ∷ []) ++ rest)
        ≡ (s, b'"' ∷ rest) =
      rw (append_assoc (json_escapes s) (b'"' ∷ []) rest)
        (json_string_loop-json_escapes out_size [] s rest h (omega (arith, fits))) in
    rw (json_read_string, body, body) refl
