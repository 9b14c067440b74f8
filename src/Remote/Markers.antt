-- ===== src/Remote/Markers.antt =====
-- The markers in the output of a session.
use application_monitoring.Prelude.{
  ℕ, zero, suc, ◌≤◌, ◌<◌, ◌≡◌, ◌⊎◌, refl, sym, ◌∙◌, true, false, [], ◌∷◌, ◌++◌, Option, none, some,
  length, Bool-cases, Option-cases, inl, inr, arith, if◌then◌else◌,
}
use application_monitoring.Text.{Bytes}
use application_monitoring.Remote.Session.{
  after_prefix, has_prefix, strstr, last_loop, find_last_occurrence,
}

-- The shortest suffix that begins with the needle.
unfoldable pub latest : Bytes → Bytes → Option Bytes
unfolding after_prefix
latest needle [] = none
latest needle (c ∷ text) = elim (latest needle text) [
  | some found ↦ some found
  | none ↦ if has_prefix needle (c ∷ text) then some (c ∷ text) else none
]

latest-cons :
    (needle : Bytes) (c : ℕ) (text : Bytes)
    → has_prefix needle (c ∷ text) ≡ false
    → latest needle (c ∷ text) ≡ latest needle text
unfolding latest after_prefix
latest-cons needle c text other = elim (Option-cases (latest needle text)) [
  | inl nowhere ↦ rw (latest, nowhere, other) refl
  | inr (found, e) ↦ rw (latest, e) refl
]

strstr-cases :
    (needle text : Bytes)
    → ((strstr text needle ≡ none) × (latest needle text ≡ none))
      ⊎ ((c : ℕ) × (rest : Bytes) × (strstr text needle ≡ some (c ∷ rest))
          × (length rest < length text)
          × (has_prefix needle (c ∷ rest) ≡ true)
          × (latest needle text ≡ latest needle (c ∷ rest)))
unfolding strstr latest after_prefix
strstr-cases needle [] = inl (refl, refl)
strstr-cases needle (c ∷ text) = elim (Bool-cases (has_prefix needle (c ∷ text))) [
  | inl here ↦ inr (c, text, rw (strstr, here) refl, omega arith, here, refl)
  | inr other ↦ elim (strstr-cases needle text) [
    | inl (e, f) ↦ inl (rw (strstr, other) e, rw (latest, f, other) refl)
    | inr (d, rest, e, h, p, f) ↦
        inr
          (d, rest, rw (strstr, other) e, omega (arith, h), p, latest-cons needle c text other ∙ f)
  ]
]

abbrev or_else : Option Bytes → Option Bytes → Option Bytes
or_else none m = m
or_else (some found) m = some found

or_else-latest :
    (needle : Bytes) (c : ℕ) (rest : Bytes) (result : Option Bytes)
    → has_prefix needle (c ∷ rest) ≡ true
    → or_else (latest needle (c ∷ rest)) result ≡ or_else (latest needle rest) (some (c ∷ rest))
unfolding latest after_prefix
or_else-latest needle c rest result here = elim (Option-cases (latest needle rest)) [
  | inl nowhere ↦ rw (latest, nowhere, here) refl
  | inr (found, e) ↦ rw (latest, e) refl
]

last_loop_lem :
    (rounds : ℕ) (cursor needle : Bytes) (result : Option Bytes)
    → length cursor ≤ rounds
    → last_loop rounds cursor needle result ≡ or_else (latest needle cursor) result
unfolding last_loop latest
last_loop_lem zero [] needle result h = refl
last_loop_lem zero (c ∷ cursor) needle result h = absurd (omega arith)
last_loop_lem (suc rounds) cursor needle result h = elim (strstr-cases needle cursor) [
  | inl (e, f) ↦ rw (last_loop, e, f) refl
  | inr (c, rest, e, shorter, here, f) ↦
      rw (last_loop, e, f)
        (last_loop_lem rounds rest needle (some (c ∷ rest)) (omega (arith, h, shorter))
          ∙ sym (or_else-latest needle c rest result here))
]

pub latest-append :
    (needle xs ys : Bytes) {found : Bytes}
    → latest needle ys ≡ some found
    → latest needle (xs ++ ys) ≡ some found
unfolding latest
latest-append needle [] ys h = h
latest-append needle (x ∷ xs) ys h = rw (latest, latest-append needle xs ys h) refl

unchanged : (m : Option Bytes) → or_else m none ≡ m
unchanged none = refl
unchanged (some found) = refl

-- The search from occurrence to occurrence finds the last one: the shortest suffix of the text that
-- begins with the needle, and NULL if there is none.
pub find_last_occurrence-latest :
    (haystack needle : Bytes) → find_last_occurrence haystack needle ≡ latest needle haystack
unfolding find_last_occurrence
find_last_occurrence-latest haystack needle =
    last_loop_lem (length haystack) haystack needle none (omega arith)
    ∙ unchanged (latest needle haystack)
