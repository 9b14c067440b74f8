-- ===== src/Remote/Quoted.antt =====
-- A text that `output_csv` puts in quotes is what `parse_quoted_field` reads.
use application_monitoring.Prelude.{
  ℕ, ◌+◌, ◌<◌, ◌≡◌, refl, subst, ◌∙◌, ap, not, Bool, true, false, [], ◌∷◌, ◌++◌, append_assoc,
  append-nil, some, arith, ◌==◌, Bool-cases, inl, inr, length, length-append,
}
use application_monitoring.Text.{Bytes, put, put_fits, put_bounded}
use application_monitoring.Output.{csv_quoted, csv_field}
use application_monitoring.Remote.{quoted_loop, parse_quoted_field}

-- Does a text go on with something else than a quote?
abbrev pub closes : Bytes → Bool
closes [] = true
closes (c ∷ rest) = not (c == b'"')

quoted_loop-end :
    (n : ℕ) (out rest : Bytes) → closes rest ≡ true → quoted_loop n out (b'"' ∷ rest) ≡ (out, rest)
unfolding quoted_loop
quoted_loop-end n out [] h = refl
quoted_loop-end n out (c ∷ rest) h = ground arith

quoted_loop-plain :
    (n : ℕ) (out : Bytes) (c : ℕ) (p : Bytes)
    → c == b'"' ≡ false
    → quoted_loop n out (c ∷ p) ≡ quoted_loop n (put n out c) p
unfolding quoted_loop
quoted_loop-plain n out c [] h = rw (quoted_loop, h) refl
quoted_loop-plain n out c (d ∷ p) h = rw (quoted_loop, h) refl

quoted_loop-doubled :
    (n : ℕ) (out p : Bytes) → quoted_loop n out (b'"' ∷ b'"' ∷ p) ≡ quoted_loop n (put n out b'"') p
unfolding quoted_loop
quoted_loop-doubled n out p = refl

-- What was read, with its next byte.
read-append :
    (out s rest : Bytes) (c : ℕ)
    → ◌≡◌ {A = Bytes × Bytes} ((out ++ c ∷ []) ++ s, rest) (out ++ c ∷ s, rest)
read-append out s rest c = rw (append_assoc out (c ∷ []) s) refl

quoted_loop-csv_quoted :
    (n : ℕ) (out s rest : Bytes)
    → length out + length s < n
    → closes rest ≡ true
    → quoted_loop n out (csv_quoted s ++ b'"' ∷ rest) ≡ (out ++ s, rest)
unfolding csv_quoted
quoted_loop-csv_quoted n out [] rest fits h = rw (append-nil out) (quoted_loop-end n out rest h)
quoted_loop-csv_quoted n out (c ∷ s) rest fits h =
    let later =
      quoted_loop-csv_quoted n (out ++ c ∷ []) s rest
        (omega (arith, length-append out (c ∷ []), fits)) h in
    let stored : put n out c ≡ out ++ c ∷ [] = put_fits n out c (omega (arith, fits)) in
    let moved = read-append out s rest c in
    let stored_loop : quoted_loop n (put n out c) (csv_quoted s ++ b'"' ∷ rest)
        ≡ quoted_loop n (out ++ c ∷ []) (csv_quoted s ++ b'"' ∷ rest) =
      rw stored refl in
    elim (Bool-cases (c == b'"')) [
      | inl e ↦
          let same : b'"' ≡ c = ground (arith, e) in
          let doubled : quoted_loop n out (b'"' ∷ b'"' ∷ (csv_quoted s ++ b'"' ∷ rest))
              ≡ quoted_loop n (put n out c) (csv_quoted s ++ b'"' ∷ rest) =
            rw (quoted_loop-doubled n out (csv_quoted s ++ b'"' ∷ rest), same) refl in
          let read : quoted_loop n out (b'"' ∷ b'"' ∷ (csv_quoted s ++ b'"' ∷ rest))
              ≡ (out ++ c ∷ s, rest) =
            doubled ∙ stored_loop ∙ later ∙ moved in
          rw (csv_quoted, e) read
      | inr e ↦
          let read : quoted_loop n out (c ∷ (csv_quoted s ++ b'"' ∷ rest)) ≡ (out ++ c ∷ s, rest) =
            quoted_loop-plain n out c (csv_quoted s ++ b'"' ∷ rest) e
            ∙ stored_loop
            ∙ later
            ∙ moved in
          rw (csv_quoted, e) read
    ]

-- A text that fits its array is read back whole from the quotes that `output_csv` puts around it, and
-- the cursor is behind them; provided that no quote follows.
pub parse_quoted_field-csv_field :
    (out_size : ℕ) (s rest : Bytes)
    → length s < out_size
    → closes rest ≡ true
    → parse_quoted_field out_size (csv_field s ++ rest) ≡ some (s, rest)
unfolding parse_quoted_field
parse_quoted_field-csv_field out_size s rest fits h = ap some (
    ap (quoted_loop out_size []) (append_assoc (csv_quoted s) (b'"' ∷ []) rest)
    ∙ quoted_loop-csv_quoted out_size [] s rest (omega (arith, fits)) h)

quoted_loop_bounded : (n : ℕ) (out p : Bytes) → length out < n → length (quoted_loop n out p).0 < n
unfolding quoted_loop
quoted_loop_bounded n out [] h = h
quoted_loop_bounded n out (c ∷ []) h = elim (Bool-cases (c == b'"')) [
  | inl e ↦ rw (quoted_loop, e) h
  | inr e ↦ rw (quoted_loop, e) (put_bounded n out c h)
]
quoted_loop_bounded n out (c ∷ d ∷ p) h = elim (Bool-cases (c == b'"')) [
  | inr e ↦
      rw (quoted_loop, e) (quoted_loop_bounded n (put n out c) (d ∷ p) (put_bounded n out c h))
  | inl e ↦ elim (Bool-cases (d == b'"')) [
    | inl f ↦
        rw (quoted_loop, e, f) (quoted_loop_bounded n (put n out b'"') p (put_bounded n out b'"' h))
    | inr f ↦ rw (quoted_loop, e, f) h
  ]
]

-- Whatever the text, a field that is read leaves room for its NUL in an array that has any.
pub parse_quoted_field_bounded :
    (out_size : ℕ) (text : Bytes) {field rest : Bytes}
    → 0 < out_size
    → parse_quoted_field out_size text ≡ some (field, rest)
    → length field < out_size
unfolding parse_quoted_field
parse_quoted_field_bounded out_size [] {field} {rest} room h = ground arith
parse_quoted_field_bounded out_size (c ∷ p) {field} {rest} room h =
    let e : quoted_loop out_size [] p ≡ (field, rest) = ground (arith, Bool-cases (c == b'"')) in
    subst (λ r. length r.0 < out_size) e (quoted_loop_bounded out_size [] p room)
