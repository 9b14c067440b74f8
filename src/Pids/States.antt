-- ===== src/Pids/States.antt =====
-- The state filter holds at most sixteen letters of the seven known ones.
use application_monitoring.Prelude.{
  ℕ, ◌≤◌, ◌<◌, ◌≡◌, true, List, [], ◌∷◌, arith, ltb, ◌==◌, Bool-cases, inl, inr, length,
  length-append, All, All-append,
}
use application_monitoring.Text.{Bytes, toupper}
use application_monitoring.Types.{max_state_filter}
use application_monitoring.Pids.{is_state, add_state, parse_states}

-- A filter that fits its array, of capital state letters.
pub record IsFilter (states : List ℕ) : Type 0 where
  pub fits : length states ≤ max_state_filter
  pub letters : All (λ s. is_state s ≡ true) states

add_state-IsFilter :
    (states : List ℕ) (c : ℕ)
    → IsFilter states
    → length states < max_state_filter
    → IsFilter (add_state states c)
unfolding add_state
add_state-IsFilter states c h room = elim (Bool-cases (c == b',')) [
  | inl e ↦ rw e h
  | inr e ↦ rw e (elim (Bool-cases (is_state (toupper c))) [
    | inr f ↦ rw f h
    | inl f ↦ rw f (record {
      fits = omega (arith, length-append states (toupper c ∷ []));
      letters = All-append _ states (toupper c ∷ []) h.letters (f, tt);
    })
  ])
]

-- Whatever the argument, `parse_states` never writes past the array of sixteen states, and stores
-- only the capital letters R S D T Z X I.
pub parse_states-IsFilter :
    (states : List ℕ) (value : Bytes) → IsFilter states → IsFilter (parse_states states value)
unfolding parse_states
parse_states-IsFilter states [] h = h
parse_states-IsFilter states (c ∷ value) h =
    elim (Bool-cases (ltb (length states) max_state_filter)) [
      | inr e ↦ rw e h
      | inl e ↦ rw e (
          parse_states-IsFilter (add_state states c) value
            (add_state-IsFilter states c h (ground arith)))
    ]
