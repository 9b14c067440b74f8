-- ===== src/Pids.antt =====
-- Arguments and file names that are read as PIDs, and the state filter: `parse_pid_path` of
-- src/monitoring_process.c, `parse_pid_list` and `parse_states` of src/monitoring_services_core.c.
pub mod Decimal
pub mod States
mod Tests
use application_monitoring.Prelude.{
  ℕ, ℤ, pos, ◌+◌, Bool, true, false, not, ◌||◌, List, [], ◌∷◌, ◌++◌, Option, none, some, ltb, leb,
  leb_ℤ, ◌==◌, pos_part, to_int32, if◌then◌else◌, length,
}
use application_monitoring.Text.{Bytes, toupper, is_empty, strtok}
use application_monitoring.Text.Numbers.{Strtol, strtol}
use application_monitoring.Types.{max_state_filter}
use application_monitoring.Processes.{append_pid}

-- errno != 0 || endptr == name || *endptr != '\0', then value <= 0
refused : Strtol → Bool
refused r = r.erange || not r.found || not (is_empty r.rest) || leb_ℤ r.value (pos 0)

-- The cast `(pid_t)value` keeps the low 32 bits.
unfoldable pub parse_pid_path : Bytes → Option ℤ
unfolding refused strtol
parse_pid_path name =
    if is_empty name
    then none
    else let r = strtol name in if refused r then none else some (to_int32 (pos_part r.value))

-- The loop over the tokens. A failure keeps the PIDs before it.
pid_tokens : (ℕ → Bool) → List ℤ → List Bytes → List ℤ × Bool
unfolding refused strtol append_pid
pid_tokens alloc array [] = (array, true)
pid_tokens alloc array (token ∷ rest) =
    let r = strtol token in
    elim (refused r) [
      | true ↦ (array, false)
      | false ↦ elim (append_pid alloc array (to_int32 (pos_part r.value))) [
        | none ↦ (array, false)
        | some array' ↦ pid_tokens alloc array' rest
      ]
    ]

-- `copied` says whether `strdup` succeeds.
unfoldable pub parse_pid_list : Bool → (ℕ → Bool) → List ℤ → Bytes → List ℤ × Bool
unfolding pid_tokens
parse_pid_list copied alloc array value =
    if copied then pid_tokens alloc array (strtok b',' value) else (array, false)

abbrev pub is_state : ℕ → Bool
is_state s = s == b'R' || s == b'S' || s == b'D' || s == b'T' || s == b'Z' || s == b'X' || s == b'I'

-- One round of the loop.
add_state : List ℕ → ℕ → List ℕ
unfolding toupper
add_state states c =
    if c == b',' then states else if is_state (toupper c) then states ++ toupper c ∷ [] else states

-- The loop ends at the NUL or at a full array.
unfoldable pub parse_states : List ℕ → Bytes → List ℕ
unfolding add_state
parse_states states [] = states
parse_states states (c ∷ value) =
    let rest = parse_states (add_state states c) value in
    if ltb (length states) max_state_filter then rest else states
