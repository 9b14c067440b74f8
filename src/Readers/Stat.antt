-- ===== src/Readers/Stat.antt =====
-- src/monitoring_process.c: the line of /proc/<pid>/stat. `page_size` is what `sysconf` answers.
use application_monitoring.Prelude.{
  ℕ, ℤ, pos, suc, ◌+◌, ◌-◌, ◌*◌, ◌/◌, ◌%◌, ◌^◌, ◌&&◌, List, [], ◌∷◌, Option, none, some, leb, ltb_ℤ,
  pos_part, ◌==◌, if◌then◌else◌, length, take, min,
}
use application_monitoring.Text.{Bytes, strtok}
use application_monitoring.Text.Numbers.{strtol, strtoul, cast_int32}
use application_monitoring.Types.{NeoProcess}
use application_monitoring.Remote.{first_byte}

-- strchr and strrchr: the text from the first or the last such byte on.
unfoldable pub strchr : Bytes → ℕ → Option Bytes
strchr [] c = none
strchr (d ∷ text) c = if d == c then some (d ∷ text) else strchr text c

unfoldable pub strrchr : Bytes → ℕ → Option Bytes
strrchr [] c = none
strrchr (d ∷ text) c = elim (strrchr text c) [
  | some found ↦ some found
  | none ↦ if d == c then some (d ∷ text) else none
]

abbrev pub behind_byte : Bytes → Bytes
behind_byte [] = []
behind_byte (c ∷ text) = text

-- The variables of `process_read_stat`.
pub record StatFields : Type 0 where
  pub state : ℕ
  pub ppid : ℤ
  pub utime : ℕ
  pub stime : ℕ
  pub threads : ℕ
  pub start_time : ℤ
  pub vsize : ℕ
  pub rss_pages : ℤ

-- The switch on the number of the field.
unfoldable pub stat_field : ℕ → Bytes → StatFields → StatFields
unfolding strtol strtoul
stat_field field token s =
    if field == 3
    then record s { state = first_byte token }
    else if field == 4
    then record s { ppid = cast_int32 (strtol token).value }
    else if field == 14
    then record s { utime = (strtoul token).value }
    else if field == 15
    then record s { stime = (strtoul token).value }
    else if field == 20
    then record s { threads = (strtoul token).value }
    else if field == 22
    then record s { start_time = pos 0 }
    else if field == 23
    then record s { vsize = (strtoul token).value }
    else if field == 24
    then record s { rss_pages = (strtol token).value }
    else s

unfoldable pub stat_fields : ℕ → List Bytes → StatFields → StatFields
unfolding stat_field
stat_fields field [] s = s
stat_fields field (token ∷ tokens) s = stat_fields (suc field) tokens (stat_field field token s)

-- The name between the parentheses, and the text behind them; `none` if there are none, or in the wrong
-- order. Behind the last parenthesis the kernel writes a blank and more.
unfoldable pub stat_comm : Bytes → Option (Bytes × Bytes)
unfolding strchr strrchr
stat_comm buffer = elim (strchr buffer b'(') [
  | none ↦ none
  | some left_paren ↦ elim (strrchr buffer b')') [
    | none ↦ none
    | some right_paren ↦
        if leb (length left_paren) (length right_paren)
        then none
        else some (
          take (min (length left_paren - length right_paren - 1) 255) (behind_byte left_paren),
          behind_byte (behind_byte right_paren),
        )
  ]
]

module _ {D : Type 0} (page_size : ℤ) where
  unfoldable pub process_read_stat : Option Bytes → NeoProcess D → Option (NeoProcess D)
  unfolding stat_comm stat_fields
  process_read_stat none process = none
  process_read_stat (some buffer) process = elim (stat_comm buffer) [
    | none ↦ none
    | some (comm, fields) ↦
        let s = stat_fields 3 (strtok b' ' fields) (record {
          state = process.state;
          ppid = process.ppid;
          utime = 0;
          stime = 0;
          threads = process.threads;
          start_time = process.start_time;
          vsize = 0;
          rss_pages = pos 0;
        }) in
        some (record process {
          comm = comm;
          state = s.state;
          ppid = s.ppid;
          threads = s.threads;
          utime = s.utime;
          stime = s.stime;
          start_time = s.start_time;
          total_time = (s.utime + s.stime) % 2 ^ 64;
          vsz_kb = s.vsize / 1024;
          rss_kb =
              if ltb_ℤ (pos 0) page_size && ltb_ℤ (pos 0) s.rss_pages
              then pos_part s.rss_pages * pos_part page_size % 2 ^ 64 / 1024
              else 0;
        })
  ]
