-- ===== src/Log.antt =====
-- src/monitoring_log.c: the log. `g_log` is a value that each function takes and returns; the mutex
-- makes each function one step. The clock, the formatted message and whether the file opens are
-- arguments. What the log file holds is kept as the list of its entries.
pub mod Recent
pub mod Sinks
mod Tests
use application_monitoring.Prelude.{
  ℕ, ℤ, pos, zero, suc, ◌+◌, ◌-◌, ◌%◌, Bool, true, false, not, ◌||◌, ◌&&◌, List, [], ◌∷◌, ◌++◌,
  Option, none, some, ltb, ◌==◌, if◌then◌else◌, min,
}
use application_monitoring.Text.{Bytes, codes, copy_bounded, strcasecmp_eq, is_empty}
use application_monitoring.Types.{NeoLogLevel, log_error, log_warn, log_info, log_debug}

abbrev pub log_history_capacity : ℕ
log_history_capacity = 500

abbrev pub neo_log_message_max : ℕ
neo_log_message_max = 512

abbrev pub neo_log_max_sinks : ℕ
neo_log_max_sinks = 4

pub record NeoLogEntry : Type 0 where
  pub when : ℤ
  pub level : NeoLogLevel
  pub message : Bytes

-- A slot of the sink table; a function and its user data are known by their addresses, NULL
-- is 0.
pub record NeoLogSinkSlot : Type 0 where
  pub sink : ℕ
  pub user_data : ℕ

-- `file` is the content that this process appended to an open file. `history` is the array by index.
pub record LogState : Type 0 where
  pub file : Option (List NeoLogEntry)
  pub path : Bytes
  pub level : NeoLogLevel
  pub history : ℕ → NeoLogEntry
  pub history_count : ℕ
  pub history_next : ℕ
  pub sinks : List (Option NeoLogSinkSlot)
  pub initialized : Bool

abbrev blank_entry : NeoLogEntry
blank_entry = record { when = pos 0; level = log_error; message = [] }

-- The static initialiser of `g_log`.
abbrev pub g_log : LogState
g_log = record {
  file = none;
  path = [];
  level = log_info;
  history = λ i. blank_entry;
  history_count = 0;
  history_next = 0;
  sinks = none ∷ none ∷ none ∷ none ∷ [];
  initialized = false;
}

-- The value of the enumerator: the more severe, the lower.
abbrev pub severity : NeoLogLevel → ℕ
severity log_error = 0
severity log_warn = 1
severity log_info = 2
severity log_debug = 3

unfoldable pub log_level_parse : Bytes → Option NeoLogLevel
unfolding strcasecmp_eq
log_level_parse text =
    if strcasecmp_eq text (codes "error")
    then some log_error
    else if strcasecmp_eq text (codes "warn") || strcasecmp_eq text (codes "warning")
    then some log_warn
    else if strcasecmp_eq text (codes "info")
    then some log_info
    else if strcasecmp_eq text (codes "debug")
    then some log_debug
    else none

unfoldable pub log_level_name : NeoLogLevel → Bytes
log_level_name log_error = codes "error"
log_level_name log_warn = codes "warn"
log_level_name log_info = codes "info"
log_level_name log_debug = codes "debug"

-- `opens` says whether `fopen(path, "a")` succeeds. An open file is closed first.
unfoldable pub log_init : Bool → Bytes → NeoLogLevel → LogState → LogState × Bool
unfolding copy_bounded
log_init opens path level s =
    let closed : LogState = record s { level = level; file = none } in
    if is_empty path
    then (record closed { initialized = true }, true)
    else if opens
    then (record closed { file = some []; path = copy_bounded 512 path; initialized = true }, true)
    else (record closed { path = []; initialized = true }, false)

unfoldable pub log_shutdown : LogState → LogState
log_shutdown s = record s { file = none; path = [] }

unfoldable pub log_file_enabled : LogState → Bool
log_file_enabled s = elim s.file [ none ↦ false | some entries ↦ true ]

-- The slots in use, in the order of the table: the loop that fills `sinks_copy`.
sinks_copy : List (Option NeoLogSinkSlot) → List NeoLogSinkSlot
sinks_copy [] = []
sinks_copy (none ∷ slots) = sinks_copy slots
sinks_copy (some slot ∷ slots) = slot ∷ sinks_copy slots

-- history[history_next] = entry, and the two counters.
push_history : NeoLogEntry → LogState → LogState
push_history entry s = record s {
  history = λ i. if i == s.history_next then entry else s.history i;
  history_next = (s.history_next + 1) % log_history_capacity;
  history_count =
      if ltb s.history_count log_history_capacity then s.history_count + 1 else s.history_count;
}

append_line : NeoLogEntry → LogState → LogState
append_line entry s = record s {
  file = elim s.file [ none ↦ none | some entries ↦ some (entries ++ entry ∷ []) ];
}

-- The loop that invokes the sinks.
sink_calls : NeoLogEntry → List NeoLogSinkSlot → List (NeoLogSinkSlot × NeoLogEntry)
sink_calls entry [] = []
sink_calls entry (slot ∷ slots) = (slot, entry) ∷ sink_calls entry slots

-- The new state, and the calls `sink(&entry, user_data)` that are made after the unlock.
unfoldable pub log_write :
    ℤ → NeoLogLevel → Bytes → LogState → LogState × List (NeoLogSinkSlot × NeoLogEntry)
unfolding sinks_copy sink_calls push_history append_line copy_bounded
log_write now level formatted s =
    if ltb (severity s.level) (severity level)
    then (s, [])
    else let entry : NeoLogEntry = record {
      when = now;
      level = level;
      message = copy_bounded neo_log_message_max formatted;
    } in
      (push_history entry (append_line entry s), sink_calls entry (sinks_copy s.sinks))

-- The copying loop: `n` entries from position `i` on.
copy_entries : (ℕ → NeoLogEntry) → ℕ → ℕ → List NeoLogEntry
copy_entries history start zero = []
copy_entries history start (suc n) =
    history (start % log_history_capacity) ∷ copy_entries history (start + 1) n

-- `max_count` of 0 returns nothing before the lock is taken.
unfoldable pub log_copy_recent : ℕ → LogState → List NeoLogEntry
unfolding copy_entries
log_copy_recent max_count s =
    if max_count == 0
    then []
    else let count = if ltb s.history_count max_count then s.history_count else max_count in
      let start = (s.history_next + log_history_capacity - count) % log_history_capacity in
      copy_entries s.history start count

-- The loop over the table: `none` if no slot is free.
fill_slot : NeoLogSinkSlot → List (Option NeoLogSinkSlot) → Option (List (Option NeoLogSinkSlot))
fill_slot slot [] = none
fill_slot slot (none ∷ slots) = some (some slot ∷ slots)
fill_slot slot (some other ∷ slots) = elim (fill_slot slot slots) [
  | none ↦ none
  | some slots' ↦ some (some other ∷ slots')
]

unfoldable pub log_add_sink : NeoLogSinkSlot → LogState → LogState × Bool
unfolding fill_slot
log_add_sink slot s = if slot.sink == 0 then (s, false) else elim (fill_slot slot s.sinks) [
  | none ↦ (s, false)
  | some slots ↦ (record s { sinks = slots }, true)
]

abbrev pub same_slot : NeoLogSinkSlot → NeoLogSinkSlot → Bool
same_slot a b = a.sink == b.sink && a.user_data == b.user_data

-- The first slot that holds the pair is emptied.
clear_slot : NeoLogSinkSlot → List (Option NeoLogSinkSlot) → List (Option NeoLogSinkSlot)
clear_slot slot [] = []
clear_slot slot (none ∷ slots) = none ∷ clear_slot slot slots
clear_slot slot (some other ∷ slots) =
    let rest = clear_slot slot slots in
    if same_slot other slot then none ∷ slots else some other ∷ rest

unfoldable pub log_remove_sink : NeoLogSinkSlot → LogState → LogState
unfolding clear_slot
log_remove_sink slot s = record s { sinks = clear_slot slot s.sinks }
