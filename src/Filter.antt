-- ===== src/Filter.antt =====
-- src/monitoring_filter.c: which processes are monitored. The arguments are objects and the entries
-- of a pattern array are strings (`append_pattern` stores no NULL), so the tests for NULL have no
-- counterpart.
pub mod Substring
pub mod Accepted
mod Tests
use application_monitoring.Prelude.{
  ℕ, ℤ, Bool, true, false, not, ◌&&◌, List, [], ◌∷◌, ◌==◌, eqb_ℤ, if◌then◌else◌,
}
use application_monitoring.Text.{Bytes, tolower, strcasecmp_eq, is_empty}
use application_monitoring.Types.{NeoConfig, NeoProcess}

-- The inner loop over `j`: from the present position of the text, is the pattern used up?
matches_here : Bytes → Bytes → Bool
unfolding tolower
matches_here text [] = true
matches_here [] (p ∷ pattern) = false
matches_here (c ∷ text) (p ∷ pattern) =
    if tolower c == tolower p then matches_here text pattern else false

-- The outer loop over `i`.
contains_from : Bytes → Bytes → Bool
unfolding matches_here
contains_from [] pattern = false
contains_from (c ∷ text) pattern =
    if matches_here (c ∷ text) pattern then true else contains_from text pattern

unfoldable pub filter_contains_ci : Bytes → Bytes → Bool
unfolding contains_from
filter_contains_ci text pattern = if is_empty pattern then true else contains_from text pattern

module _ {D : Type 0} where
  -- The loop that both pattern filters run: does a pattern occur in the name or the command line?
  any_pattern : List Bytes → NeoProcess D → Bool
  any_pattern [] process = false
  any_pattern (pattern ∷ patterns) process =
      if filter_contains_ci process.comm pattern
      then true
      else if filter_contains_ci process.cmdline pattern
      then true
      else any_pattern patterns process

  -- No include pattern monitors everything.
  unfoldable pub filter_match_patterns : NeoConfig D → NeoProcess D → Bool
  unfolding any_pattern
  filter_match_patterns config process = elim config.patterns [
    | [] ↦ true
    | pattern ∷ rest ↦ any_pattern (pattern ∷ rest) process
  ]

  unfoldable pub filter_match_excludes : NeoConfig D → NeoProcess D → Bool
  unfolding any_pattern
  filter_match_excludes config process = any_pattern config.exclude_patterns process

-- The loop of the two PID filters.
any_pid : List ℤ → ℤ → Bool
any_pid [] pid = false
any_pid (x ∷ pids) pid = if eqb_ℤ x pid then true else any_pid pids pid

any_state : List ℕ → ℕ → Bool
any_state [] state = false
any_state (x ∷ states) state = if x == state then true else any_state states state

module _ {D : Type 0} where
  unfoldable pub filter_match_pid : NeoConfig D → NeoProcess D → Bool
  unfolding any_pid
  filter_match_pid config process = elim config.pids [
    | [] ↦ true
    | x ∷ rest ↦ any_pid (x ∷ rest) process.pid
  ]

  unfoldable pub filter_match_ppid : NeoConfig D → NeoProcess D → Bool
  unfolding any_pid
  filter_match_ppid config process = elim config.ppids [
    | [] ↦ true
    | x ∷ rest ↦ any_pid (x ∷ rest) process.ppid
  ]

  -- The test on the uid, then the one on the name.
  unfoldable pub filter_match_user : NeoConfig D → NeoProcess D → Bool
  unfolding strcasecmp_eq
  filter_match_user config process =
      if config.filter_uid_enabled && not (process.uid == config.filter_uid)
      then false
      else if config.filter_user_enabled && not (strcasecmp_eq process.user config.filter_user)
      then false
      else true

  unfoldable pub filter_match_state : NeoConfig D → NeoProcess D → Bool
  unfolding any_state
  filter_match_state config process = elim config.states [
    | [] ↦ true
    | x ∷ rest ↦ any_state (x ∷ rest) process.state
  ]

  unfoldable pub process_matches : NeoConfig D → NeoProcess D → Bool
  process_matches config process =
      if not (filter_match_patterns config process)
      then false
      else if filter_match_excludes config process
      then false
      else if not (filter_match_pid config process)
      then false
      else if not (filter_match_ppid config process)
      then false
      else if not (filter_match_user config process)
      then false
      else if not (filter_match_state config process)
      then false
      else true
