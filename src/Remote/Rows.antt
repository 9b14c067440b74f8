-- ===== src/Remote/Rows.antt =====
-- A row that `output_csv` writes is read back by `parse_csv_line`.
use application_monitoring.Prelude.{
  ℕ, suc, pos, leb_ℤ, ◌+◌, ◌<◌, ◌≡◌, refl, sym, subst, ◌∙◌, ap, Bool, true, false, List, [], ◌∷◌,
  ◌++◌, append_assoc, append-nil, Option, none, some, arith, ◌==◌, length, length-append, All,
  Option-cases, inl, inr,
}
use application_monitoring.Text.{Bytes, put, put_fits, strtok}
use application_monitoring.Double.{Double}
use application_monitoring.Types.{NeoProcess, NeoProcessList, max_cmdline}
use application_monitoring.Processes.{process_list_init}
use application_monitoring.Processes.Growth.{process_list_add_lem}
use application_monitoring.Output.{csv_numbers, csv_field, csv_row}
use application_monitoring.Remote.{
  csv_fields, csv_texts, csv_process, parse_csv_line, parse_quoted_field, without_return, csv_lines,
  parse_csv_output,
}
use application_monitoring.Remote.Quoted.{parse_quoted_field-csv_field}

-- A field of a row: no comma, and it fits its array.
pub record IsField (f : Bytes) : Type 0 where
  pub plain : All (λ c. c == b',' ≡ false) f
  pub fits : length f < 64

-- Where a field ends, the next one begins.
after_field : Bytes → Option (List Bytes × Bytes) → Option (List Bytes × Bytes)
after_field out none = none
after_field out (some (fields, rest)) = some (out ∷ fields, rest)

csv_fields-comma :
    (count : ℕ) (out p : Bytes)
    → csv_fields (suc count) out (b',' ∷ p) ≡ after_field out (csv_fields count [] p)
unfolding csv_fields after_field
csv_fields-comma count out p = refl

csv_fields-plain :
    (count : ℕ) (out : Bytes) (c : ℕ) (p : Bytes)
    → c == b',' ≡ false
    → csv_fields (suc count) out (c ∷ p) ≡ csv_fields (suc count) (put 64 out c) p
unfolding csv_fields
csv_fields-plain count out c p h = rw (csv_fields, h) refl

csv_fields-field :
    (count : ℕ) (out f p : Bytes)
    → All (λ c. c == b',' ≡ false) f
    → length out + length f < 64
    → csv_fields (suc count) out (f ++ b',' ∷ p) ≡ after_field (out ++ f) (csv_fields count [] p)
csv_fields-field count out [] p h fits = rw (append-nil out) (csv_fields-comma count out p)
csv_fields-field count out (c ∷ f) p (h, plain) fits =
    let stored : put 64 out c ≡ out ++ c ∷ [] = put_fits 64 out c (omega (arith, fits)) in
    let later =
      csv_fields-field count (out ++ c ∷ []) f p plain
        (omega (arith, fits, length-append out (c ∷ []))) in
    rw (csv_fields-plain count out c (f ++ b',' ∷ p) h, stored, sym (append_assoc out (c ∷ []) f))
      later

csv_fields-csv_numbers :
    (fields : List Bytes) (rest : Bytes)
    → All IsField fields
    → csv_fields (length fields) [] (csv_numbers fields ++ rest) ≡ some (fields, rest)
unfolding csv_fields csv_numbers after_field
csv_fields-csv_numbers [] rest h = refl
csv_fields-csv_numbers (f ∷ fields) rest (h, k) =
    ap (csv_fields (suc (length fields)) []) (append_assoc f (b',' ∷ csv_numbers fields) rest)
    ∙ csv_fields-field (length fields) [] f (csv_numbers fields ++ rest) h.plain
        (omega (arith, h.fits))
    ∙ ap (after_field f) (csv_fields-csv_numbers fields rest k)

csv_texts-csv_field :
    (comm cmdline : Bytes)
    → length comm < 256
    → length cmdline < max_cmdline
    → csv_texts (csv_field comm ++ b',' ∷ csv_field cmdline) ≡ some (comm, cmdline)
unfolding csv_texts
csv_texts-csv_field comm cmdline short long =
    let first = parse_quoted_field-csv_field 256 comm (b',' ∷ csv_field cmdline) short refl in
    let second : parse_quoted_field max_cmdline (csv_field cmdline) ≡ some (cmdline, []) =
      ap (parse_quoted_field max_cmdline) (sym (append-nil (csv_field cmdline)))
      ∙ parse_quoted_field-csv_field max_cmdline cmdline [] long refl in
    rw (csv_texts, first, second) refl

module _ {D : Type 0} (F : Double D) (strtod : Bytes → D) where
  -- A row of 15 fields without commas that fit their arrays, with a positive PID in the first one, and
  -- of a name and a command line that fit theirs, is read as the process of these fields; the name and
  -- the command line are those that were written, with all their commas and quotes.
  pub parse_csv_line-csv_row :
      (fields : List Bytes) (comm cmdline : Bytes)
      → length fields ≡ 15
      → All IsField fields
      → length comm < 256
      → length cmdline < max_cmdline
      → leb_ℤ (csv_process F strtod fields comm cmdline).pid (pos 0) ≡ false
      → parse_csv_line F strtod (csv_row fields comm cmdline)
        ≡ some (csv_process F strtod fields comm cmdline)
  unfolding parse_csv_line
  parse_csv_line-csv_row fields comm cmdline all plain short long positive =
      let texts = csv_texts-csv_field comm cmdline short long in
      let numbers : csv_fields 15 [] (csv_row fields comm cmdline)
          ≡ some (fields, csv_field comm ++ b',' ∷ csv_field cmdline) =
        subst
          (λ n.
            csv_fields n [] (csv_row fields comm cmdline)
            ≡ some (fields, csv_field comm ++ b',' ∷ csv_field cmdline))
          all (csv_fields-csv_numbers fields (csv_field comm ++ b',' ∷ csv_field cmdline) plain) in
      rw (parse_csv_line, numbers, texts, positive) refl

  -- The processes of the lines that are rows.
  unfoldable pub rows : List Bytes → List (NeoProcess D)
  rows [] = []
  rows (line ∷ lines) = elim (parse_csv_line F strtod (without_return line)) [
    | none ↦ rows lines
    | some process ↦ process ∷ rows lines
  ]

  module _ (room : ℕ → Bool) (has_room : (n : ℕ) → room n ≡ true) where
    csv_lines-rows :
        (list : NeoProcessList D) (lines : List Bytes)
        → (csv_lines F strtod room list lines).items ≡ list.items ++ rows lines
    unfolding csv_lines rows
    csv_lines-rows list [] = sym (append-nil list.items)
    csv_lines-rows list (line ∷ lines) =
        elim (Option-cases (parse_csv_line F strtod (without_return line))) [
          | inl e ↦ rw (csv_lines, rows, e) (csv_lines-rows list lines)
          | inr (p, e) ↦
              let (list', f, items) = process_list_add_lem room list p has_room in
              rw (csv_lines, rows, e, f)
                (csv_lines-rows list' lines
                  ∙ ap (λ l. l ++ rows lines) items
                  ∙ append_assoc list.items (p ∷ []) (rows lines))
        ]

    -- Where memory can be had, reading the output of a remote host succeeds, and gives the processes of
    -- those of its lines that are rows, in their order; every other line is skipped, and nothing of the
    -- list before is left.
    pub parse_csv_output-rows :
        (list : NeoProcessList D) (text : Bytes)
        → let r = parse_csv_output F strtod true room list text in
          (r.1 ≡ true) × (r.0.items ≡ rows (strtok b'\n' text))
    unfolding parse_csv_output
    parse_csv_output-rows list text = (refl, csv_lines-rows process_list_init (strtok b'\n' text))
