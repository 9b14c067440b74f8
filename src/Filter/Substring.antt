-- ===== src/Filter/Substring.antt =====
-- The two loops of `filter_contains_ci` find a substring, up to case.
use application_monitoring.Prelude.{
  ℕ, ◌≡◌, ◌≢◌, refl, ◌↔◌, inl, inr, true, [], ◌∷◌, ◌++◌, map, arith, ◌==◌, Bool-cases, ap,
}
use application_monitoring.Text.{Bytes, tolower}
use application_monitoring.Filter.{matches_here, contains_from, filter_contains_ci}

-- Somewhere in the text stand bytes that differ from the pattern at most in case.
abbrev pub Occurs : Bytes → Bytes → Type 0
Occurs pattern text =
    (before found after : Bytes) × (text ≡ before ++ (found ++ after))
    × (map tolower found ≡ map tolower pattern)

abbrev Starts : Bytes → Bytes → Type 0
Starts pattern text =
    (found after : Bytes) × (text ≡ found ++ after) × (map tolower found ≡ map tolower pattern)

matches_here_sound : (text pattern : Bytes) → matches_here text pattern ≡ true → Starts pattern text
unfolding matches_here
matches_here_sound text [] h = ([], text, refl, refl)
matches_here_sound [] (p ∷ pattern) h = cc
matches_here_sound (c ∷ text) (p ∷ pattern) h = elim (Bool-cases (tolower c == tolower p)) [
  | inl e ↦
      let (found, after, split, same) = matches_here_sound text pattern (ground arith) in
      (c ∷ found, after, cc, ground arith)
  | inr e ↦ cc (rw e at h)
]

matches_here_complete :
    (found after pattern : Bytes)
    → map tolower found ≡ map tolower pattern
    → matches_here (found ++ after) pattern ≡ true
unfolding matches_here
matches_here_complete found after [] h = refl
matches_here_complete [] after (p ∷ pattern) h = cc
matches_here_complete (c ∷ found) after (p ∷ pattern) h =
    ground (arith, matches_here_complete found after pattern)

Starts→Occurs : (pattern text : Bytes) → Starts pattern text → Occurs pattern text
Starts→Occurs pattern text (found, after, split, same) = ([], found, after, split, same)

Occurs-cons : (c : ℕ) (pattern text : Bytes) → Occurs pattern text → Occurs pattern (c ∷ text)
Occurs-cons c pattern text (before, found, after, split, same) =
    (c ∷ before, found, after, ap (λ (r : Bytes). c ∷ r) split, same)

contains_from_sound :
    (text pattern : Bytes) → contains_from text pattern ≡ true → Occurs pattern text
unfolding contains_from
contains_from_sound [] pattern h = cc
contains_from_sound (c ∷ text) pattern h = elim (Bool-cases (matches_here (c ∷ text) pattern)) [
  | inl e ↦ Starts→Occurs pattern (c ∷ text) (matches_here_sound (c ∷ text) pattern e)
  | inr e ↦ Occurs-cons c pattern text (contains_from_sound text pattern (ground arith))
]

contains_from_complete :
    (before found after pattern : Bytes)
    → map tolower found ≡ map tolower pattern
    → pattern ≢ []
    → contains_from (before ++ (found ++ after)) pattern ≡ true
unfolding contains_from
contains_from_complete (c ∷ before) found after pattern h k =
    ground (arith, contains_from_complete before found after pattern)
contains_from_complete [] [] after [] h k = absurd (k refl)
contains_from_complete [] [] after (p ∷ pattern) h k = cc
contains_from_complete [] (c ∷ found) after pattern h k =
    ground (arith, matches_here_complete (c ∷ found) after pattern h)

-- `filter_contains_ci` answers true exactly when the pattern stands somewhere in the text, where
-- bytes that differ only in ASCII case count as equal. The empty pattern stands in every text.
pub filter_contains_ci_iff :
    (text pattern : Bytes) → (filter_contains_ci text pattern ≡ true) ↔ Occurs pattern text
unfolding filter_contains_ci
filter_contains_ci_iff text [] = (λ h. ([], [], text, refl, refl), λ o. refl)
filter_contains_ci_iff text (p ∷ pattern) = (
  contains_from_sound text (p ∷ pattern),
  λ (before, found, after, split, same).
      rw split (contains_from_complete before found after (p ∷ pattern) same (λ e. cc)),
)
