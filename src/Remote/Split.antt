-- ===== src/Remote/Split.antt =====
-- The totals and the rows of a session, found by their markers.
use application_monitoring.Prelude.{
  ℕ, ◌+◌, ◌%◌, ◌^◌, ◌<◌, ◌≡◌, refl, ◌∙◌, Bool, true, false, [], ◌∷◌, ◌++◌, Option, none, some, ltb,
  length, take, take-append, length-append, arith, ◌==◌,
}
use application_monitoring.Text.{Bytes}
use application_monitoring.Double.{Double}
use application_monitoring.Types.{NeoProcessList, NeoSystemInfo}
use application_monitoring.Remote.Session.{
  neo_sysinfo_marker, neo_csv_marker, after_prefix, has_prefix, next, find_last_occurrence,
  parse_remote_system_info, unknown_system, sysinfo_len, rows_session, block_system,
  parse_combined_output,
}
use application_monitoring.Remote.Markers.{latest, latest-append, find_last_occurrence-latest}

after_prefix-append : (marker text : Bytes) → after_prefix marker (marker ++ text) ≡ some text
unfolding after_prefix
after_prefix-append [] text = refl
after_prefix-append (c ∷ marker) text =
    let same : c == c ≡ true = ground arith in
    rw (after_prefix, same) (after_prefix-append marker text)

latest-marker :
    (c : ℕ) (marker text : Bytes)
    → latest (c ∷ marker) (marker ++ text) ≡ none
    → latest (c ∷ marker) ((c ∷ marker) ++ text) ≡ some ((c ∷ marker) ++ text)
unfolding latest
latest-marker c marker text h =
    let here : has_prefix (c ∷ marker) ((c ∷ marker) ++ text) ≡ true =
      rw (has_prefix, after_prefix-append (c ∷ marker) text) refl in
    rw (latest, h, here) refl

-- The texts of a session.
abbrev pub from_rows : Bytes → Bytes
from_rows rows = neo_csv_marker ++ rows

abbrev pub from_totals : Bytes → Bytes → Bytes
from_totals block rows = neo_sysinfo_marker ++ (block ++ from_rows rows)

sysinfo_len-block :
    (block rows : Bytes)
    → length block < 2 ^ 63
    → sysinfo_len (from_totals block rows) (from_rows rows) ≡ length block
sysinfo_len-block block rows h = omega (arith, length-append block (from_rows rows))

settled :
    {A : Type 0} (m : Option A) (a : A)
    → elim m [ none ↦ some a | some b ↦ some b ] ≡ some (elim m [ none ↦ a | some b ↦ b ])
settled none a = refl
settled (some b) a = refl

module _ {D : Type 0} (F : Double D) (strtod : Bytes → D) (block_copied rows_copied : Bool)
    (malloc : ℕ → Bool) (room : ℕ → Bool) where
  -- What a block says, if there is memory to read it.
  abbrev pub totals : Bytes → NeoSystemInfo
  totals block = elim (parse_remote_system_info block_copied block) [
    | none ↦ unknown_system
    | some system ↦ system
  ]

  block_system-totals :
      (block rows : Bytes)
      → length block < 2 ^ 63
      → malloc (length block + 1) ≡ true
      → block_system F strtod block_copied rows_copied malloc room
          (from_totals block rows)
          (from_rows rows)
        ≡ some (totals block)
  unfolding block_system after_prefix
  block_system-totals block rows h granted =
      let n : sysinfo_len (from_totals block rows) (from_rows rows) ≡ length block =
        sysinfo_len-block block rows h in
      let size : (length block + 1) % 2 ^ 64 ≡ length block + 1 = omega (arith, h) in
      let inside : ltb (length (block ++ from_rows rows)) (length block) ≡ false =
        ground (arith, length-append block (from_rows rows)) in
      let read : take (length block) (block ++ from_rows rows) ≡ block =
        take-append block (from_rows rows) in
      rw (block_system, n, size, granted, inside, read)
        (settled (parse_remote_system_info block_copied block) unknown_system)

  -- Of a session's output, whatever stands in front of it (as the echo of the command does, with both
  -- markers), the rows are those behind the last marker of the rows, and the totals those between the last
  -- two markers; provided that neither marker occurs again behind its place, that the totals are shorter
  -- than 2 ^ 63 bytes, and that there is memory for them.
  pub parse_combined_output-session :
      (list : NeoProcessList D) (noise block rows : Bytes)
      → latest neo_sysinfo_marker (next (from_totals block rows)) ≡ none
      → latest neo_csv_marker (next (from_rows rows)) ≡ none
      → length block < 2 ^ 63
      → malloc (length block + 1) ≡ true
      → parse_combined_output F strtod block_copied rows_copied malloc room list
          (noise ++ from_totals block rows)
        ≡ some (rows_session F strtod block_copied rows_copied malloc room list (totals block) rows)
  unfolding parse_combined_output after_prefix
  parse_combined_output-session list noise block rows h k short granted =
      let text = noise ++ from_totals block rows in
      let from : latest neo_csv_marker (from_rows rows) ≡ some (from_rows rows) =
        latest-marker _ _ rows k in
      let e1 : find_last_occurrence text neo_sysinfo_marker ≡ some (from_totals block rows) =
        find_last_occurrence-latest text neo_sysinfo_marker
        ∙ latest-append neo_sysinfo_marker noise (from_totals block rows)
            (latest-marker _ _ (block ++ from_rows rows) h) in
      let e2 : find_last_occurrence text neo_csv_marker ≡ some (from_rows rows) =
        find_last_occurrence-latest text neo_csv_marker
        ∙ latest-append neo_csv_marker noise (from_totals block rows) (
            latest-append neo_csv_marker neo_sysinfo_marker (block ++ from_rows rows)
              (latest-append neo_csv_marker block (from_rows rows) from)) in
      let e3 : ltb (length (from_rows rows)) (length (from_totals block rows)) ≡ true =
        ground (arith, length-append block (from_rows rows)) in
      rw (parse_combined_output, e1, e2, e3, block_system-totals block rows short granted) refl
