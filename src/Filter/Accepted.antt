-- ===== src/Filter/Accepted.antt =====
-- The filters of a configuration as a predicate on processes, and `process_matches` as its decision.
use application_monitoring.Prelude.{
  ℕ, ℤ, ◌≡◌, refl, ◌↔◌, ◌⊎◌, inl, inr, Bool, true, false, List, [], ◌∷◌, map, arith, if◌then◌else◌,
  eqb_ℤ_iff, Any,
}
use application_monitoring.Text.{Bytes, tolower, strcasecmp_eq_iff}
use application_monitoring.Types.{NeoConfig, NeoProcess}
use application_monitoring.Filter.{
  any_pattern, any_pid, any_state, filter_match_patterns, filter_match_excludes, filter_match_pid,
  filter_match_ppid, filter_match_user, filter_match_state, process_matches,
}
use application_monitoring.Filter.Substring.{Occurs, filter_contains_ci_iff}

module _ {D : Type 0} where
  -- A pattern fits a process by its name or by its command line.
  abbrev pub Fits : NeoProcess D → Bytes → Type 0
  Fits process pattern = Occurs pattern process.comm ⊎ Occurs pattern process.cmdline

-- An empty filter lets everything pass; another wants one of its entries to hold.
abbrev pub Chosen : {A : Type 0} → (A → Type 0) → List A → Type 0
Chosen P [] = Unit
Chosen P (x ∷ xs) = Any P (x ∷ xs)

-- A ladder of two tests before a third reads as a sum.
or_else_iff :
    (a b c : Bool) {P Q R : Type 0}
    → (a ≡ true) ↔ P
    → (b ≡ true) ↔ Q
    → (c ≡ true) ↔ R
    → ((if a then true else if b then true else c) ≡ true) ↔ ((P ⊎ Q) ⊎ R)
or_else_iff true b c p q r = (λ h. inl (inl (p.0 refl)), λ h. refl)
or_else_iff false true c p q r = (λ h. inl (inr (q.0 refl)), λ h. refl)
or_else_iff false false c p q r = (
  λ h. inr (r.0 h),
  λ h. elim h [ inl (inl x) ↦ cc (p.1 x) | inl (inr y) ↦ cc (q.1 y) | inr z ↦ r.1 z ],
)

module _ {D : Type 0} where
  -- What the command line asks for.
  pub record Accepted (config : NeoConfig D) (process : NeoProcess D) : Type 0 where
    pub by_pattern : Chosen (Fits process) config.patterns
    pub not_excluded : ¬ (Any (Fits process) config.exclude_patterns)
    pub by_pid : Chosen (λ pid. pid ≡ process.pid) config.pids
    pub by_ppid : Chosen (λ pid. pid ≡ process.ppid) config.ppids
    pub by_uid : (config.filter_uid_enabled ≡ false) ⊎ (process.uid ≡ config.filter_uid)
    pub by_user :
        (config.filter_user_enabled ≡ false)
        ⊎ (map tolower process.user ≡ map tolower config.filter_user)
    pub by_state : Chosen (λ state. state ≡ process.state) config.states

  any_pattern_iff :
      (patterns : List Bytes) (process : NeoProcess D)
      → (any_pattern patterns process ≡ true) ↔ Any (Fits process) patterns
  unfolding any_pattern
  any_pattern_iff [] process = (λ h. cc, λ h. absurd h)
  any_pattern_iff (p ∷ patterns) process =
      or_else_iff _ _ _ (filter_contains_ci_iff process.comm p)
        (filter_contains_ci_iff process.cmdline p) (any_pattern_iff patterns process)

any_pid_iff : (pids : List ℤ) (pid : ℤ) → (any_pid pids pid ≡ true) ↔ Any (λ x. x ≡ pid) pids
unfolding any_pid
any_pid_iff [] pid = (λ h. cc, λ h. absurd h)
any_pid_iff (x ∷ pids) pid = ground (arith, eqb_ℤ_iff x pid, any_pid_iff pids pid)

any_state_iff :
    (states : List ℕ) (state : ℕ) → (any_state states state ≡ true) ↔ Any (λ x. x ≡ state) states
unfolding any_state
any_state_iff [] state = (λ h. cc, λ h. absurd h)
any_state_iff (x ∷ states) state = ground (arith, any_state_iff states state)

not_true : {b : Bool} → ¬ (b ≡ true) → b ≡ false
not_true h = ground arith

-- The test for an empty filter in front of a loop.
chosen_iff :
    {A : Type 0} (xs : List A) (test : List A → Bool) (P : A → Type 0)
    → (test xs ≡ true) ↔ Any P xs
    → ((elim xs [ [] ↦ true | x ∷ rest ↦ test (x ∷ rest) ]) ≡ true) ↔ Chosen P xs
chosen_iff [] test P h = (λ e. tt, λ c. refl)
chosen_iff (x ∷ xs) test P h = h

module _ {D : Type 0} (config : NeoConfig D) (process : NeoProcess D) where
  filter_match_patterns_iff :
      (filter_match_patterns config process ≡ true) ↔ Chosen (Fits process) config.patterns
  unfolding filter_match_patterns
  filter_match_patterns_iff =
      chosen_iff config.patterns (λ ps. any_pattern ps process) (Fits process)
        (any_pattern_iff config.patterns process)

  filter_match_pid_iff :
      (filter_match_pid config process ≡ true) ↔ Chosen (λ pid. pid ≡ process.pid) config.pids
  unfolding filter_match_pid
  filter_match_pid_iff =
      chosen_iff config.pids (λ ps. any_pid ps process.pid) (λ pid. pid ≡ process.pid)
        (any_pid_iff config.pids process.pid)

  filter_match_ppid_iff :
      (filter_match_ppid config process ≡ true) ↔ Chosen (λ pid. pid ≡ process.ppid) config.ppids
  unfolding filter_match_ppid
  filter_match_ppid_iff =
      chosen_iff config.ppids (λ ps. any_pid ps process.ppid) (λ pid. pid ≡ process.ppid)
        (any_pid_iff config.ppids process.ppid)

  filter_match_state_iff :
      (filter_match_state config process ≡ true)
      ↔ Chosen (λ state. state ≡ process.state) config.states
  unfolding filter_match_state
  filter_match_state_iff =
      chosen_iff config.states (λ ss. any_state ss process.state) (λ state. state ≡ process.state)
        (any_state_iff config.states process.state)

  filter_match_excludes_iff :
      (filter_match_excludes config process ≡ true) ↔ Any (Fits process) config.exclude_patterns
  unfolding filter_match_excludes
  filter_match_excludes_iff = any_pattern_iff config.exclude_patterns process

  filter_match_user_iff : (filter_match_user config process ≡ true) ↔ (
      ((config.filter_uid_enabled ≡ false) ⊎ (process.uid ≡ config.filter_uid))
      × ((config.filter_user_enabled ≡ false)
          ⊎ (map tolower process.user ≡ map tolower config.filter_user)))
  unfolding filter_match_user
  filter_match_user_iff = ground (arith, strcasecmp_eq_iff process.user config.filter_user)

  -- The ladder of `process_matches` is the conjunction of its tests.
  process_matches_ladder : (process_matches config process ≡ true) ↔ (
      (filter_match_patterns config process ≡ true)
      × (filter_match_excludes config process ≡ false)
      × (filter_match_pid config process ≡ true)
      × (filter_match_ppid config process ≡ true)
      × (filter_match_user config process ≡ true)
      × (filter_match_state config process ≡ true))
  unfolding process_matches
  process_matches_ladder = ground arith

  -- A process is monitored exactly when it meets the whole configuration: an include pattern stands
  -- in its name or its command line (or there is none), no exclude pattern does, its PID, parent
  -- PID and state are listed (or the list is empty), and the enabled user filters agree.
  pub process_matches_iff : (process_matches config process ≡ true) ↔ Accepted config process
  process_matches_iff = (to, from)
    where
      to : process_matches config process ≡ true → Accepted config process
      to h =
          let (p, x, i, pp, u, s) = process_matches_ladder.0 h in
          record {
            by_pattern = filter_match_patterns_iff.0 p;
            not_excluded = λ e. cc (x, filter_match_excludes_iff.1 e);
            by_pid = filter_match_pid_iff.0 i;
            by_ppid = filter_match_ppid_iff.0 pp;
            by_uid = (filter_match_user_iff.0 u).0;
            by_user = (filter_match_user_iff.0 u).1;
            by_state = filter_match_state_iff.0 s;
          }

      from : Accepted config process → process_matches config process ≡ true
      from a = process_matches_ladder.1 (
        filter_match_patterns_iff.1 a.by_pattern,
        not_true (λ e. a.not_excluded (filter_match_excludes_iff.0 e)),
        filter_match_pid_iff.1 a.by_pid,
        filter_match_ppid_iff.1 a.by_ppid,
        filter_match_user_iff.1 (a.by_uid, a.by_user),
        filter_match_state_iff.1 a.by_state,
      )
