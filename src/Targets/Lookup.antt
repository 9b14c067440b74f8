-- ===== src/Targets/Lookup.antt =====
-- What `target_list_find` gives after a change of the list.
use application_monitoring.Prelude.{
  ℕ, ◌≡◌, ◌≢◌, ◌↔◌, sym, subst, refl, Bool, List, [], ◌∷◌, ◌++◌, none, some, arith, if◌then◌else◌,
  Option-cases, Bool-cases, inl, inr, All,
}
use application_monitoring.Text.{Bytes, strcmp_eq, strcmp_eq_iff}
use application_monitoring.Targets.{
  NeoTarget, NeoTargetList, target_list_reserve, find_named, target_list_find, overwrite,
  add_target, target_list_upsert, take_out, target_list_remove,
}

-- A target that replaces one, or that is new, is what its name finds from then on.
find_named-overwrite :
    (items : List NeoTarget) (target : NeoTarget) (items' : List NeoTarget) (name : Bytes)
    → overwrite items target ≡ some items'
    → find_named items' name
      ≡ (if strcmp_eq target.name name then some target else find_named items name)
unfolding find_named overwrite
find_named-overwrite [] target items' name h = cc
find_named-overwrite (x ∷ items) target items' name h =
    elim (Option-cases (overwrite items target)) [
      | inl e ↦ ground (
        arith,
        e,
        strcmp_eq_iff x.name name,
        strcmp_eq_iff target.name name,
        strcmp_eq_iff x.name target.name,
      )
      | inr (r, e) ↦ ground (
        arith,
        e,
        find_named-overwrite items target r name e,
        strcmp_eq_iff x.name name,
        strcmp_eq_iff target.name name,
        strcmp_eq_iff x.name target.name,
      )
    ]

find_named-append :
    (items : List NeoTarget) (target : NeoTarget) (name : Bytes)
    → overwrite items target ≡ none
    → find_named (items ++ target ∷ []) name
      ≡ (if strcmp_eq target.name name then some target else find_named items name)
unfolding find_named overwrite
find_named-append [] target name h = refl
find_named-append (x ∷ items) target name h = ground (
  arith,
  find_named-append items target name,
  strcmp_eq_iff x.name name,
  strcmp_eq_iff target.name name,
  strcmp_eq_iff x.name target.name,
)

find_named-take_out :
    (items items' : List NeoTarget) (name other : Bytes)
    → take_out items name ≡ some items'
    → name ≢ other
    → find_named items' other ≡ find_named items other
unfolding find_named take_out
find_named-take_out [] items' name other h d = cc
find_named-take_out (x ∷ items) items' name other h d = elim (Option-cases (take_out items name)) [
  | inl e ↦ ground (arith, e, strcmp_eq_iff x.name name, strcmp_eq_iff x.name other)
  | inr (r, e) ↦ ground (
    arith,
    e,
    find_named-take_out items r name other e d,
    strcmp_eq_iff x.name name,
    strcmp_eq_iff x.name other,
  )
]

-- A name finds nothing just where no target has it.
find_named-absent :
    (items : List NeoTarget) (name : Bytes)
    → find_named items name ≡ none
    → All (λ x. x.name ≢ name) items
unfolding find_named
find_named-absent [] name h = tt
find_named-absent (x ∷ items) name h =
    (ground (arith, strcmp_eq_iff x.name name), find_named-absent items name (ground arith))

absent-find_named :
    (items : List NeoTarget) (name : Bytes)
    → All (λ x. x.name ≢ name) items
    → find_named items name ≡ none
unfolding find_named
absent-find_named [] name h = refl
absent-find_named (x ∷ items) name (n, h) =
    ground (arith, n, strcmp_eq_iff x.name name, absent-find_named items name h)

-- Removing and overwriting fail just where the name finds nothing.
take_out-none :
    (items : List NeoTarget) (name : Bytes)
    → (take_out items name ≡ none) ↔ (find_named items name ≡ none)
unfolding find_named take_out
take_out-none [] name = ground arith
take_out-none (x ∷ items) name = ground (arith, take_out-none items name)

pub overwrite-none :
    (items : List NeoTarget) (target : NeoTarget)
    → (overwrite items target ≡ none) ↔ (find_named items target.name ≡ none)
unfolding find_named overwrite
overwrite-none [] target = ground arith
overwrite-none (x ∷ items) target = ground (arith, overwrite-none items target)

-- No two targets have the same name.
abbrev pub NamesDiffer : List NeoTarget → Type 0
NamesDiffer [] = Unit
NamesDiffer (x ∷ items) = All (λ y. y.name ≢ x.name) items × NamesDiffer items

find_named-removed :
    (items items' : List NeoTarget) (name : Bytes)
    → NamesDiffer items
    → take_out items name ≡ some items'
    → find_named items' name ≡ none
unfolding find_named take_out
find_named-removed [] items' name d h = cc
find_named-removed (x ∷ items) items' name (a, d) h = elim (Bool-cases (strcmp_eq x.name name)) [
  | inl e ↦
      let same : x.name ≡ name = (strcmp_eq_iff x.name name).0 e in
      let rest : items ≡ items' = ground (arith, e) in
      rw (sym rest) (absent-find_named items name (subst (λ n. All (λ y. y.name ≢ n) items) same a))
  | inr e ↦ elim (Option-cases (take_out items name)) [
    | inl f ↦ ground (arith, e, f)
    | inr (r, f) ↦ ground (arith, e, f, find_named-removed items r name d f)
  ]
]

-- Once a target is saved, its name finds it, and every other name finds what it found before.
pub target_list_find-target_list_upsert :
    (room : ℕ → Bool) (list : NeoTargetList) (target : NeoTarget) {list' : NeoTargetList}
    → target_list_upsert room list target ≡ some list'
    → (name : Bytes)
    → target_list_find list' name
      ≡ (if strcmp_eq target.name name then some target else target_list_find list name)
unfolding target_list_find target_list_upsert add_target target_list_reserve
target_list_find-target_list_upsert room list target {list'} h name =
    elim (Option-cases (overwrite list.items target)) [
      | inl e ↦
          let f : list'.items ≡ list.items ++ target ∷ [] = ground (arith, e) in
          rw f (find_named-append list.items target name e)
      | inr (items, e) ↦
          let f : list'.items ≡ items = ground (arith, e) in
          rw f (find_named-overwrite list.items target items name e)
    ]

-- Where no two targets have the same name, a removed name finds nothing from then on, and every other
-- name finds what it found before.
pub target_list_find-target_list_remove :
    (list : NeoTargetList) (name : Bytes) {list' : NeoTargetList}
    → NamesDiffer list.items
    → target_list_remove list name ≡ some list'
    → (other : Bytes)
    → target_list_find list' other
      ≡ (if strcmp_eq name other then none else target_list_find list other)
unfolding target_list_find target_list_remove
target_list_find-target_list_remove list name {list'} d h other =
    let f : take_out list.items name ≡ some list'.items =
      ground (arith, Option-cases (take_out list.items name)) in
    elim (Bool-cases (strcmp_eq name other)) [
      | inl e ↦
          ground
            (arith, e, strcmp_eq_iff name other, find_named-removed list.items list'.items name d f)
      | inr e ↦
          let differ : name ≢ other = ground (arith, e, strcmp_eq_iff name other) in
          ground (arith, e, find_named-take_out list.items list'.items name other f differ)
    ]

-- Removing a target fails just where the name finds none.
pub target_list_remove-none :
    (list : NeoTargetList) (name : Bytes)
    → (target_list_remove list name ≡ none) ↔ (target_list_find list name ≡ none)
unfolding target_list_find target_list_remove
target_list_remove-none list name =
    ground (arith, take_out-none list.items name, Option-cases (take_out list.items name))
