-- ===== src/Processes/Growth.antt =====
-- A list of processes grows where memory can be had.
use application_monitoring.Prelude.{
  ℕ, leb, ◌==◌, ◌*◌, ◌≡◌, refl, Bool, true, [], ◌∷◌, ◌++◌, some, if◌then◌else◌, Bool-cases, inl,
  inr, length,
}
use application_monitoring.Types.{NeoProcess, NeoProcessList, initial_capacity}
use application_monitoring.Processes.{process_list_add, process_list_reserve}

module _ {D : Type 0} where
  process_list_reserve_lem :
      (room : ℕ → Bool) (list : NeoProcessList D) (n : ℕ)
      → ((n : ℕ) → room n ≡ true)
      → (list' : NeoProcessList D) × (process_list_reserve room list n ≡ some list')
        × (list'.items ≡ list.items)
  unfolding process_list_reserve
  process_list_reserve_lem room list n h = elim (Bool-cases (leb n list.capacity)) [
    | inl e ↦ (list, rw e refl, refl)
    | inr e ↦ (record list { capacity = n }, rw (e, h n) refl, refl)
  ]

  pub process_list_add_lem :
      (room : ℕ → Bool) (list : NeoProcessList D) (p : NeoProcess D)
      → ((n : ℕ) → room n ≡ true)
      → (list' : NeoProcessList D) × (process_list_add room list p ≡ some list')
        × (list'.items ≡ list.items ++ p ∷ [])
  unfolding process_list_add
  process_list_add_lem room list p h = elim (Bool-cases (leb list.capacity (length list.items))) [
    | inl e ↦
        let (list', f, same) =
          process_list_reserve_lem room list
            (if list.capacity == 0 then initial_capacity else list.capacity * 2) h in
        (record list' { items = list'.items ++ p ∷ [] }, rw (e, f) refl, rw same refl)
    | inr e ↦ (record list { items = list.items ++ p ∷ [] }, rw e refl, refl)
  ]
