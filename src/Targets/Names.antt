-- ===== src/Targets/Names.antt =====
-- The lists of targets that the operations reach, and when saving a target fails.
use application_monitoring.Prelude.{
  ℕ, ◌+◌, ◌*◌, ◌≤◌, ◌≡◌, ◌↔◌, ◌⊎◌, Bool, true, false, [], ◌∷◌, ◌++◌, none, some, arith, ◌==◌,
  if◌then◌else◌, Option-cases, Bool-cases, inl, inr, length, length-append, All, All-append,
}
use application_monitoring.Text.{Bytes, is_empty}
use application_monitoring.Targets.{
  NeoTarget, NeoTargetList, target_list_init, target_list_reserve, target_list_find, overwrite,
  add_target, target_list_upsert, take_out, target_list_remove,
}
use application_monitoring.Targets.Lookup.{NamesDiffer, overwrite-none}
use application_monitoring.Targets.Rebuilt.{
  overwrite-All, take_out-All, overwrite-NamesDiffer, take_out-NamesDiffer, append-NamesDiffer,
  overwrite-absent,
}

-- A successful call on the list.
pub data Step (room : ℕ → Bool) : NeoTargetList → NeoTargetList → Type 0 where
  upserted :
      {list list' : NeoTargetList} (target : NeoTarget)
      → target_list_upsert room list target ≡ some list'
      → Step room list list'
  removed :
      {list list' : NeoTargetList} (name : Bytes)
      → target_list_remove list name ≡ some list'
      → Step room list list'

pub data Reachable (room : ℕ → Bool) : NeoTargetList → Type 0 where
  initially : Reachable room target_list_init
  after :
      {list list' : NeoTargetList}
      → Reachable room list
      → Step room list list'
      → Reachable room list'

-- The names differ, no name is empty, and the targets fit the allocation.
pub record IsValid (list : NeoTargetList) : Type 0 where
  pub differ : NamesDiffer list.items
  pub named : All (λ x. is_empty x.name ≡ false) list.items
  pub fits : length list.items ≤ list.capacity

add_target_lem :
    (room : ℕ → Bool) (list : NeoTargetList) (target : NeoTarget) (list' : NeoTargetList)
    → length list.items ≤ list.capacity
    → add_target room list target ≡ some list'
    → (list'.items ≡ list.items ++ target ∷ []) × (length list.items + 1 ≤ list'.capacity)
unfolding add_target target_list_reserve
add_target_lem room list target list' fits h = (ground arith, ground arith)

upsert-IsValid :
    (room : ℕ → Bool) (list : NeoTargetList) (target : NeoTarget) (list' : NeoTargetList)
    → target_list_upsert room list target ≡ some list'
    → IsValid list
    → IsValid list'
unfolding target_list_upsert
upsert-IsValid room list target list' h v =
    let nonempty : is_empty target.name ≡ false =
      ground (arith, Bool-cases (is_empty target.name)) in
    elim (Option-cases (overwrite list.items target)) [
      | inl e ↦
          let (f, fits) =
            add_target_lem room list target list' v.fits (ground (arith, e, nonempty)) in
          record {
            differ = rw f (
                append-NamesDiffer list.items target (overwrite-absent list.items target e)
                  v.differ);
            named = rw f (
                All-append (λ x. is_empty x.name ≡ false) list.items (target ∷ []) v.named
                  (nonempty, tt));
            fits = rw f (omega (arith, length-append list.items (target ∷ []), fits));
          }
      | inr (items, e) ↦
          let f : list' ≡ record list { items = items } = ground (arith, e, nonempty) in
          let (differ, same) = overwrite-NamesDiffer list.items items target e v.differ in
          rw f (record {
            differ = differ;
            named = overwrite-All (λ n. is_empty n ≡ false) list.items items target e v.named;
            fits = omega (arith, same, v.fits);
          })
    ]

remove-IsValid :
    (list : NeoTargetList) (name : Bytes) (list' : NeoTargetList)
    → target_list_remove list name ≡ some list'
    → IsValid list
    → IsValid list'
unfolding target_list_remove
remove-IsValid list name list' h v = elim (Option-cases (take_out list.items name)) [
  | inl e ↦ ground (arith, e)
  | inr (items, e) ↦
      let f : list' ≡ record list { items = items } = ground (arith, e) in
      let (differ, less) = take_out-NamesDiffer list.items items name e v.differ in
      rw f (record {
        differ = differ;
        named = take_out-All (λ n. is_empty n ≡ false) list.items items name e v.named;
        fits = omega (arith, less, v.fits);
      })
]

-- However targets are saved and removed, from the empty list on, no two targets have the same name, no
-- name is empty, and the targets fit the array that is allocated.
pub Reachable-IsValid :
    (room : ℕ → Bool) (list : NeoTargetList) → Reachable room list → IsValid list
Reachable-IsValid room list initially = record { differ = tt; named = tt; fits = omega arith }
Reachable-IsValid room list (after {list = before} r (upserted target h)) =
    upsert-IsValid room before target list h (Reachable-IsValid room before r)
Reachable-IsValid room list (after {list = before} r (removed name h)) =
    remove-IsValid before name list h (Reachable-IsValid room before r)

-- Saving a target in a list whose targets fit its array fails just where its name is empty, or where it
-- is new, the array is full and cannot be doubled (or started with eight).
pub target_list_upsert-none :
    (room : ℕ → Bool) (list : NeoTargetList) (target : NeoTarget)
    → (target_list_upsert room list target ≡ none) ↔ (
        (is_empty target.name ≡ true)
        ⊎ ((target_list_find list target.name ≡ none)
            × (length list.items ≡ list.capacity)
            × (room (if list.capacity == 0 then 8 else list.capacity * 2) ≡ false)))
unfolding target_list_upsert add_target target_list_reserve target_list_find
target_list_upsert-none room list target =
    ground (arith, overwrite-none list.items target, Option-cases (overwrite list.items target))
