-- ===== src/Remote/Overlap.antt =====
-- When the totals of a session are copied out of bounds.
use application_monitoring.Prelude.{
  ℕ, ◌+◌, ◌%◌, ◌^◌, ◌≤◌, ◌<◌, ◌≡◌, ◌≢◌, sym, ◌∙◌, Bool, true, false, [], ◌∷◌, none, some, length,
  Bool-cases, Option-cases, inl, inr, arith, ◌==◌, subst,
}
use application_monitoring.Text.{Bytes}
use application_monitoring.Double.{Double}
use application_monitoring.Types.{NeoProcessList}
use application_monitoring.Remote.Session.{
  neo_sysinfo_marker, neo_csv_marker, after_prefix, has_prefix, find_last_occurrence, sysinfo_len,
  behind, block_system, parse_combined_output,
}
use application_monitoring.Remote.Markers.{latest, find_last_occurrence-latest}

after_prefix-length :
    (marker text : Bytes)
    → has_prefix marker text ≡ true
    → length text ≡ length marker + length (behind marker text)
unfolding after_prefix
after_prefix-length [] text h = omega arith
after_prefix-length (c ∷ marker) [] h = cc
after_prefix-length (c ∷ marker) (d ∷ text) h = ground (arith, h, after_prefix-length marker text)

latest-found :
    (needle text : Bytes) {found : Bytes}
    → latest needle text ≡ some found
    → (has_prefix needle found ≡ true) × (length found ≤ length text)
unfolding latest
latest-found needle [] h = cc
latest-found needle (c ∷ text) {found} h = elim (Option-cases (latest needle text)) [
  | inr (later, e) ↦
      let (here, fits) = latest-found needle text e in ground (arith, h, e, here, fits)
  | inl nowhere ↦ ground (arith, h, nowhere)
]

module _ {D : Type 0} (F : Double D) (strtod : Bytes → D) (block_copied rows_copied : Bool)
    (malloc : ℕ → Bool) (room : ℕ → Bool) where
  block_system-bounds :
      (sysinfo_start csv_start : Bytes)
      → block_system F strtod block_copied rows_copied malloc room sysinfo_start csv_start ≡ none
      → let n = sysinfo_len sysinfo_start csv_start in
        (malloc ((n + 1) % 2 ^ 64) ≡ true) × (length (behind neo_sysinfo_marker sysinfo_start) < n)
  unfolding block_system
  block_system-bounds sysinfo_start csv_start e = ground (arith, e)

  block_system-none :
      (sysinfo_start csv_start : Bytes)
      → ((n : ℕ) → 2 ^ 63 ≤ n → malloc n ≡ false)
      → length sysinfo_start < 2 ^ 62
      → has_prefix neo_sysinfo_marker sysinfo_start ≡ true
      → length csv_start < length sysinfo_start
      → block_system F strtod block_copied rows_copied malloc room sysinfo_start csv_start ≡ none
      → (malloc 0 ≡ true)
        × (length sysinfo_start + 1 ≡ length csv_start + length neo_sysinfo_marker)
  unfolding block_system
  block_system-none sysinfo_start csv_start refuses small here shorter e =
      let n = sysinfo_len sysinfo_start csv_start in
      let rest = behind neo_sysinfo_marker sysinfo_start in
      let sized = after_prefix-length neo_sysinfo_marker sysinfo_start here in
      let (granted, over) = block_system-bounds sysinfo_start csv_start e in
      elim (Bool-cases (length sysinfo_start + 1 == length csv_start + length neo_sysinfo_marker)) [
        | inl same ↦
            let meet : length sysinfo_start + 1 ≡ length csv_start + length neo_sysinfo_marker =
              ground (arith, same) in
            let nothing : (n + 1) % 2 ^ 64 ≡ 0 = omega (arith, meet, small) in
            (subst (λ k. malloc k ≡ true) nothing granted, meet)
        | inr other ↦
            let apart : length sysinfo_start + 1 ≢ length csv_start + length neo_sysinfo_marker =
              ground (arith, other) in
            let large : 2 ^ 63 ≤ (n + 1) % 2 ^ 64 =
              omega (arith, apart, small, sized, over, shorter) in
            absurd (ground (arith, granted, refuses ((n + 1) % 2 ^ 64) large))
      ]

  -- If the totals are copied from or to outside of their memory, the marker of the rows begins on the last
  -- byte of the marker of the totals (their `#` are shared), and `malloc` of 0 bytes succeeds; given that
  -- the output is shorter than 2 ^ 62 bytes, and that `malloc` refuses 2 ^ 63 bytes and more.
  pub parse_combined_output-none :
      (list : NeoProcessList D) (text : Bytes)
      → ((n : ℕ) → 2 ^ 63 ≤ n → malloc n ≡ false)
      → length text < 2 ^ 62
      → parse_combined_output F strtod block_copied rows_copied malloc room list text ≡ none
      → (malloc 0 ≡ true)
        × ((sysinfo_start : Bytes) × (csv_start : Bytes) × (find_last_occurrence text
                neo_sysinfo_marker
              ≡ some sysinfo_start)
            × (find_last_occurrence text neo_csv_marker ≡ some csv_start)
            × (length sysinfo_start + 1 ≡ length csv_start + length neo_sysinfo_marker))
  unfolding parse_combined_output
  parse_combined_output-none list text refuses small e =
      elim (Option-cases (find_last_occurrence text neo_sysinfo_marker)) [
        | inl f ↦ absurd (ground (arith, e, f))
        | inr (sysinfo_start, f) ↦ elim (Option-cases (find_last_occurrence text neo_csv_marker)) [
          | inl g ↦ absurd (ground (arith, e, f, g))
          | inr (csv_start, g) ↦
              let (here, fits) =
                latest-found neo_sysinfo_marker text
                  (sym (find_last_occurrence-latest text neo_sysinfo_marker) ∙ f) in
              let system =
                block_system F strtod block_copied rows_copied malloc room sysinfo_start
                  csv_start in
              let taken : (length csv_start < length sysinfo_start) × (system ≡ none) =
                ground (arith, e, f, g) in
              let (empty, meet) =
                block_system-none sysinfo_start csv_start refuses (omega (arith, fits, small)) here
                  taken.0 taken.1 in
              (empty, (sysinfo_start, csv_start, f, g, meet))
        ]
      ]
