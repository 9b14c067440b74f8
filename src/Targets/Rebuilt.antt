-- ===== src/Targets/Rebuilt.antt =====
-- The loops that overwrite a target and take one out keep the names of the list apart.
use application_monitoring.Prelude.{
  ◌≤◌, ◌≡◌, ◌≢◌, ap, suc, subst, ◌⊎◌, sym, refl, List, [], ◌∷◌, ◌++◌, none, some, arith,
  Option-cases, Bool-cases, inl, inr, length, All, All-append,
}
use application_monitoring.Text.{Bytes, strcmp_eq, strcmp_eq_iff}
use application_monitoring.Targets.{NeoTarget, overwrite, take_out}
use application_monitoring.Targets.Lookup.{NamesDiffer}

-- How a loop that rebuilds the list ends: at the first item of the name, or further on.
overwrite-cases :
    (x : NeoTarget) (items items' : List NeoTarget) (target : NeoTarget)
    → overwrite (x ∷ items) target ≡ some items'
    → ((x.name ≡ target.name) × (items' ≡ target ∷ items))
      ⊎ ((r : List NeoTarget) × (overwrite items target ≡ some r) × (items' ≡ x ∷ r))
unfolding overwrite
overwrite-cases x items items' target h = elim (Bool-cases (strcmp_eq x.name target.name)) [
  | inl e ↦ inl ((strcmp_eq_iff x.name target.name).0 e, ground (arith, e))
  | inr e ↦ elim (Option-cases (overwrite items target)) [
    | inl f ↦ ground (arith, e, f)
    | inr (r, f) ↦ inr (r, f, ground (arith, e, f))
  ]
]

take_out-cases :
    (x : NeoTarget) (items items' : List NeoTarget) (name : Bytes)
    → take_out (x ∷ items) name ≡ some items'
    → (items' ≡ items) ⊎ ((r : List NeoTarget) × (take_out items name ≡ some r) × (items' ≡ x ∷ r))
unfolding take_out
take_out-cases x items items' name h = elim (Bool-cases (strcmp_eq x.name name)) [
  | inl e ↦ inl (ground (arith, e))
  | inr e ↦ elim (Option-cases (take_out items name)) [
    | inl f ↦ ground (arith, e, f)
    | inr (r, f) ↦ inr (r, f, ground (arith, e, f))
  ]
]

-- What holds of all names still holds of them.
pub overwrite-All :
    (P : Bytes → Type 0) (items items' : List NeoTarget) (target : NeoTarget)
    → overwrite items target ≡ some items'
    → All (λ y. P y.name) items
    → All (λ y. P y.name) items'
unfolding overwrite
overwrite-All P [] items' target h a = ground arith
overwrite-All P (x ∷ items) items' target h (p, a) =
    elim (overwrite-cases x items items' target h) [
      | inl (e, f) ↦ rw f (subst P e p, a)
      | inr (r, e, f) ↦ rw f (p, overwrite-All P items r target e a)
    ]

pub take_out-All :
    (P : Bytes → Type 0) (items items' : List NeoTarget) (name : Bytes)
    → take_out items name ≡ some items'
    → All (λ y. P y.name) items
    → All (λ y. P y.name) items'
unfolding take_out
take_out-All P [] items' name h a = ground arith
take_out-All P (x ∷ items) items' name h (p, a) = elim (take_out-cases x items items' name h) [
  | inl f ↦ rw f a
  | inr (r, e, f) ↦ rw f (p, take_out-All P items r name e a)
]

pub overwrite-NamesDiffer :
    (items items' : List NeoTarget) (target : NeoTarget)
    → overwrite items target ≡ some items'
    → NamesDiffer items
    → NamesDiffer items' × (length items' ≡ length items)
unfolding overwrite
overwrite-NamesDiffer [] items' target h d = ground arith
overwrite-NamesDiffer (x ∷ items) items' target h (a, d) =
    elim (overwrite-cases x items items' target h) [
      | inl (e, f) ↦ rw f ((subst (λ n. All (λ y. y.name ≢ n) items) e a, d), refl)
      | inr (r, e, f) ↦
          let (d', same) = overwrite-NamesDiffer items r target e d in
          rw f ((overwrite-All (λ n. n ≢ x.name) items r target e a, d'), ap suc same)
    ]

pub take_out-NamesDiffer :
    (items items' : List NeoTarget) (name : Bytes)
    → take_out items name ≡ some items'
    → NamesDiffer items
    → NamesDiffer items' × (length items' ≤ length items)
unfolding take_out
take_out-NamesDiffer [] items' name h d = ground arith
take_out-NamesDiffer (x ∷ items) items' name h (a, d) =
    elim (take_out-cases x items items' name h) [
      | inl f ↦ rw f (d, omega arith)
      | inr (r, e, f) ↦
          let (d', less) = take_out-NamesDiffer items r name e d in
          rw f ((take_out-All (λ n. n ≢ x.name) items r name e a, d'), omega (arith, less))
    ]

pub append-NamesDiffer :
    (items : List NeoTarget) (target : NeoTarget)
    → All (λ y. y.name ≢ target.name) items
    → NamesDiffer items
    → NamesDiffer (items ++ target ∷ [])
append-NamesDiffer [] target a d = (tt, tt)
append-NamesDiffer (x ∷ items) target (n, a) (b, d) = (
  All-append (λ y. y.name ≢ x.name) items (target ∷ []) b ((λ e. n (sym e)), tt),
  append-NamesDiffer items target a d,
)

pub overwrite-absent :
    (items : List NeoTarget) (target : NeoTarget)
    → overwrite items target ≡ none
    → All (λ y. y.name ≢ target.name) items
unfolding overwrite
overwrite-absent [] target h = tt
overwrite-absent (x ∷ items) target h = (
  ground (arith, strcmp_eq_iff x.name target.name, Option-cases (overwrite items target)),
  overwrite-absent items target (ground (arith, Option-cases (overwrite items target))),
)
