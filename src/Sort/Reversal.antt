-- ===== src/Sort/Reversal.antt =====
-- The swapping loop reverses the list.
use mathlib.Core.List.{reverse-append}
use application_monitoring.Prelude.{
  ℕ, zero, suc, ◌+◌, ◌-◌, ◌≤◌, ◌<◌, ◌≡◌, ◌⊎◌, inl, inr, refl, ap, true, false, List, [], ◌∷◌, ◌++◌,
  append_assoc, append-nil, reverse, some, arith, sym, ◌∙◌, ltb, length, length-append, get_elem?,
  set, get_at, set_at,
}
use application_monitoring.Sort.{swap, swap_ends}

module _ {A : Type 0} where
  swap_found :
      (l : List A) (i j : ℕ) (x y : A)
      → get_elem? l i ≡ some x
      → get_elem? l j ≡ some y
      → swap l i j ≡ set (set l i y) j x
  unfolding swap
  swap_found l i j x y hx hy = ground (arith, hx, hy)

  -- Two items of a list, and the list with them exchanged.
  swap_lem :
      (pre mid post : List A) (x y : A) (i j : ℕ)
      → i ≡ length pre
      → j ≡ length pre + 1 + length mid
      → swap (pre ++ x ∷ (mid ++ y ∷ post)) i j ≡ pre ++ y ∷ (mid ++ x ∷ post)
  swap_lem pre mid post x y i j hi hj =
      swap_found (pre ++ x ∷ (mid ++ y ∷ post)) i j x y (get_at pre x (mid ++ y ∷ post) refl hi)
        (get_at (pre ++ x ∷ mid) y post (sym (append_assoc pre (x ∷ mid) (y ∷ post))) (at x))
      ∙ ap (λ l. set l j x) (set_at pre x y (mid ++ y ∷ post) refl hi)
      ∙ set_at (pre ++ y ∷ mid) y x post (sym (append_assoc pre (y ∷ mid) (y ∷ post))) (at y)
      ∙ append_assoc pre (y ∷ mid) (x ∷ post)
    where
      at : (z : A) → j ≡ length (pre ++ z ∷ mid)
      at z = omega (arith, length-append pre (z ∷ mid))

  snoc_cases : (l : List A) → (l ≡ []) ⊎ ((r : List A) × (y : A) × (l ≡ r ++ y ∷ []))
  snoc_cases [] = inl refl
  snoc_cases (x ∷ l) = elim (snoc_cases l) [
    | inl e ↦ inr ([], x, ap (λ r. x ∷ r) e)
    | inr (r, y, e) ↦ inr (x ∷ r, y, ap (λ r. x ∷ r) e)
  ]

  swap_ends_stop :
      (rounds i j : ℕ) (l : List A) → ltb i j ≡ false → swap_ends (suc rounds) i j l ≡ l
  unfolding swap_ends
  swap_ends_stop rounds i j l h = ground (arith, h)

  swap_ends_go :
      (rounds i j : ℕ) (l : List A)
      → ltb i j ≡ true
      → swap_ends (suc rounds) i j l ≡ swap_ends rounds (i + 1) (j - 1) (swap l i j)
  unfolding swap_ends
  swap_ends_go rounds i j l h = ground (arith, h)

  reverse_ends : (x y : A) (r : List A) → reverse (x ∷ (r ++ y ∷ [])) ≡ y ∷ (reverse r ++ x ∷ [])
  reverse_ends x y r =
      reverse-append (x ∷ []) (r ++ y ∷ []) ∙ ap (λ l. l ++ x ∷ []) (reverse-append r (y ∷ []))

  swap_ends_lem :
      (rounds : ℕ) (pre mid post : List A) (i j : ℕ)
      → i ≡ length pre
      → j + 1 ≡ length pre + length mid
      → length mid ≤ rounds
      → swap_ends rounds i j (pre ++ (mid ++ post)) ≡ pre ++ (reverse mid ++ post)
  swap_ends_lem zero pre [] post i j hi hj enough = unfold swap_ends in refl
  swap_ends_lem zero pre (x ∷ mid) post i j hi hj enough = absurd (omega arith)
  swap_ends_lem (suc rounds) pre [] post i j hi hj enough =
      swap_ends_stop rounds i j (pre ++ post) (ground arith)
  swap_ends_lem (suc rounds) pre (x ∷ mid) post i j hi hj enough = elim (snoc_cases mid) [
    | inl e ↦
        swap_ends_stop rounds i j (pre ++ ((x ∷ mid) ++ post)) (ground (arith, ap length e))
        ∙ rw e refl
    | inr (r, y, e) ↦
        let n : length mid ≡ length r + 1 = ap length e ∙ length-append r (y ∷ []) in
        let rest =
          swap_ends_lem rounds (pre ++ y ∷ []) r (x ∷ post) (i + 1) (j - 1)
            (omega (arith, length-append pre (y ∷ []))) (omega (arith, length-append pre (y ∷ [])))
            (omega arith) in
        swap_ends_go rounds i j (pre ++ ((x ∷ mid) ++ post)) (ground arith)
        ∙ ap (swap_ends rounds (i + 1) (j - 1)) (outer r y e)
        ∙ rest
        ∙ inner r y e
  ]
    where
      -- the exchange of the two ends, with the new end moved to the front part
      outer :
          (r : List A) (y : A)
          → mid ≡ r ++ y ∷ []
          → swap (pre ++ ((x ∷ mid) ++ post)) i j ≡ (pre ++ y ∷ []) ++ (r ++ x ∷ post)
      outer r y e =
          rw (e, append_assoc r (y ∷ []) post)
            (swap_lem pre r post x y i j hi (omega (arith, ap length e, length-append r (y ∷ [])))
              ∙ sym (append_assoc pre (y ∷ []) (r ++ x ∷ post)))

      inner :
          (r : List A) (y : A)
          → mid ≡ r ++ y ∷ []
          → (pre ++ y ∷ []) ++ (reverse r ++ x ∷ post) ≡ pre ++ (reverse (x ∷ mid) ++ post)
      inner r y e = rw (e, reverse_ends x y r) (simp append_assoc)

  -- On a list of at least one item, the loop gives the reverse.
  pub swap_ends-eq-reverse :
      (l : List A) → 0 < length l → swap_ends (length l) 0 (length l - 1) l ≡ reverse l
  swap_ends-eq-reverse l h =
      ap (swap_ends (length l) 0 (length l - 1)) (sym (append-nil l))
      ∙ swap_ends_lem (length l) [] l [] 0 (length l - 1) refl (omega arith) (omega arith)
      ∙ append-nil (reverse l)
