-- ===== src/Main/Filters.antt =====
-- src/monotoring_services.c: `apply_local_filters`, which moves the processes that are monitored to the
-- front of the array.
use application_monitoring.Prelude.{
  ℕ, zero, suc, ◌+◌, ◌≡◌, refl, sym, ◌∙◌, ap, true, false, List, [], ◌∷◌, ◌++◌, none, some, take,
  length, get_elem?, set, get_at, set_at, append_assoc, append-nil, length-append, take-append,
  ◌==◌, if◌then◌else◌, Bool-cases, inl, inr, arith,
}
use application_monitoring.Types.{NeoConfig, NeoProcess, NeoProcessList}
use application_monitoring.Filter.{process_matches}

module _ {D : Type 0} (config : NeoConfig D) where
  -- The loop, for as many rounds as there are items to read; it gives the array and the final `write_index`.
  unfoldable pub filter_loop : ℕ → List (NeoProcess D) → ℕ → ℕ → List (NeoProcess D) × ℕ
  unfolding process_matches
  filter_loop zero items read_index write_index = (items, write_index)
  filter_loop (suc rounds) items read_index write_index = elim (get_elem? items read_index) [
    | none ↦ (items, write_index)
    | some process ↦ elim (process_matches config process) [
      | false ↦ filter_loop rounds items (read_index + 1) write_index
      | true ↦
          filter_loop rounds
            (if write_index == read_index then items else set items write_index process)
            (read_index + 1) (write_index + 1)
    ]
  ]

  unfoldable pub apply_local_filters : NeoProcessList D → NeoProcessList D
  unfolding filter_loop
  apply_local_filters list =
      let (items, write_index) = filter_loop (length list.items) list.items 0 0 in
      record list { items = take write_index items }

  -- The processes that match, in their order.
  unfoldable pub matching : List (NeoProcess D) → List (NeoProcess D)
  matching [] = []
  matching (p ∷ items) = elim (process_matches config p) [
    | false ↦ matching items
    | true ↦ p ∷ matching items
  ]

  -- A kept item goes behind the front, where the first item that was dropped stood, if there is one.
  move_down :
      (kept junk : List (NeoProcess D)) (p : NeoProcess D) (rest : List (NeoProcess D))
      (items : List (NeoProcess D)) (read_index write_index : ℕ)
      → items ≡ kept ++ (junk ++ p ∷ rest)
      → read_index ≡ length kept + length junk
      → write_index ≡ length kept
      → (junk' : List (NeoProcess D)) × ((if write_index == read_index
            then items
            else set items write_index p)
          ≡ (kept ++ p ∷ []) ++ (junk' ++ rest))
        × (length junk' ≡ length junk)
  move_down kept [] p rest items read_index write_index e h k =
      let here : write_index == read_index ≡ true = ground (arith, h, k) in
      ([], rw here (e ∙ sym (append_assoc kept (p ∷ []) rest)), refl)
  move_down kept (j ∷ junk) p rest items read_index write_index e h k =
      let later : write_index == read_index ≡ false = ground (arith, h, k) in
      (
        junk ++ p ∷ [],
        rw later (
            set_at kept j p (junk ++ p ∷ rest) e k
            ∙ ap (λ l. kept ++ p ∷ l) (sym (append_assoc junk (p ∷ []) rest))
            ∙ sym (append_assoc kept (p ∷ []) ((junk ++ p ∷ []) ++ rest))),
        omega (arith, length-append junk (p ∷ [])),
      )

  -- The front is what was kept, behind it stand items that were read, and then those to read.
  kept_first :
      (rest kept junk : List (NeoProcess D)) (items : List (NeoProcess D))
      (read_index write_index : ℕ)
      → items ≡ kept ++ (junk ++ rest)
      → read_index ≡ length kept + length junk
      → write_index ≡ length kept
      → let (out, n) = filter_loop (length rest) items read_index write_index in
        take n out ≡ kept ++ matching rest
  unfolding filter_loop matching
  kept_first [] kept junk items read_index write_index e h k =
      rw (e, k) (take-append kept (junk ++ []) ∙ sym (append-nil kept))
  kept_first (p ∷ rest) kept junk items read_index write_index e h k =
      let found : get_elem? items read_index ≡ some p =
        get_at (kept ++ junk) p rest (e ∙ sym (append_assoc kept junk (p ∷ rest)))
          (omega (arith, h, length-append kept junk)) in
      elim (Bool-cases (process_matches config p)) [
        | inr drop ↦
            rw (filter_loop, found, drop, matching)
              (kept_first rest kept (junk ++ p ∷ []) items (read_index + 1) write_index
                (e ∙ ap (λ l. kept ++ l) (sym (append_assoc junk (p ∷ []) rest)))
                (omega (arith, h, length-append junk (p ∷ []))) k)
        | inl keep ↦
            rw (filter_loop, found, keep, matching)
              (let (junk', moved, same) =
                  move_down kept junk p rest items read_index write_index e h k in
                kept_first rest (kept ++ p ∷ []) junk' _ (read_index + 1) (write_index + 1) moved
                  (omega (arith, h, same, length-append kept (p ∷ [])))
                  (omega (arith, k, length-append kept (p ∷ [])))
                ∙ append_assoc kept (p ∷ []) (matching rest))
      ]

  -- After the loop the array holds the processes that match, each as often as before and in their order,
  -- and no other.
  pub apply_local_filters_lem :
      (list : NeoProcessList D) → (apply_local_filters list).items ≡ matching list.items
  unfolding apply_local_filters
  apply_local_filters_lem list = kept_first list.items [] [] list.items 0 0 refl refl refl
