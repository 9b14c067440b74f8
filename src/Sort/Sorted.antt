-- ===== src/Sort/Sorted.antt =====
-- `sort_processes` orders the list, given what <stdlib.h> says of `qsort`.
use mathlib.Core.List.{Perm, reverse_perm, reverse-append}
use mathlib.Core.List.Perm
use application_monitoring.Prelude.{
  ℤ, pos, ◌-◌, ◌<◌, ◌≡◌, ◌⊎◌, ap, Bool, true, false, List, [], ◌∷◌, ◌++◌, reverse, arith, ltb,
  leb_ℤ, Bool-cases, inl, inr, if◌then◌else◌, length, All, All-append,
}
use application_monitoring.Double.{Double, IsOrdered}
use application_monitoring.Types.{
  NeoProcess, NeoSortMode, sort_cpu, sort_mem, sort_pid, sort_rss, sort_io_read, sort_io_write,
}
use application_monitoring.Sort.{
  by_pid, descending, compare_processes, swap_ends, Qsort, sort_processes,
}
use application_monitoring.Sort.Consistent.{
  IsConsistent, HasNumbers, compare_processes-IsConsistent,
}
use application_monitoring.Sort.Reversal.{swap_ends-eq-reverse}

-- No later item compares below an earlier one.
abbrev pub InOrder : {A : Type 0} → (A → A → ℤ) → List A → Type 0
InOrder cmp [] = Unit
InOrder cmp (x ∷ l) = All (λ y. leb_ℤ (cmp x y) (pos 0) ≡ true) l × InOrder cmp l

-- What <stdlib.h> promises: for a consistent comparator, the same items in order.
pub record QsortSorts {A : Type 0} (qsort : Qsort A) : Type 1 where
  pub sorts :
      (P : A → Type 0) (cmp : A → A → ℤ)
      → IsConsistent P cmp
      → (l : List A) → All P l
      → Perm (qsort cmp l) l × InOrder cmp (qsort cmp l)

module _ {A : Type 0} (cmp : A → A → ℤ) where
  abbrev pub flipped : A → A → ℤ
  flipped a b = cmp b a

  All-InOrder-append :
      (xs : List A) (y : A)
      → InOrder flipped xs
      → All (λ x. leb_ℤ (cmp y x) (pos 0) ≡ true) xs
      → InOrder flipped (xs ++ y ∷ [])
  All-InOrder-append [] y h k = (tt, tt)
  All-InOrder-append (x ∷ xs) y (a, h) (b, k) =
      (All-append _ xs (y ∷ []) a (b, tt), All-InOrder-append xs y h k)

  All-reverse : (P : A → Type 0) (l : List A) → All P l → All P (reverse l)
  All-reverse P [] h = tt
  All-reverse P (x ∷ l) (p, h) =
      rw (reverse-append (x ∷ []) l) (All-append P (reverse l) (x ∷ []) (All-reverse P l h) (p, tt))

  -- An ordered list backwards is ordered the other way.
  InOrder-reverse : (l : List A) → InOrder cmp l → InOrder flipped (reverse l)
  InOrder-reverse [] h = tt
  InOrder-reverse (x ∷ l) (a, h) =
      rw (reverse-append (x ∷ []) l)
        (All-InOrder-append (reverse l) x (InOrder-reverse l h) (All-reverse _ l a))

  InOrder-short : (l : List A) → length l < 2 → InOrder cmp l
  InOrder-short [] h = tt
  InOrder-short (x ∷ []) h = (tt, tt)
  InOrder-short (x ∷ y ∷ l) h = absurd (omega arith)

not_empty : {A : Type 0} (l items : List A) → Perm l items → 0 < length items → 0 < length l
not_empty [] items p h = let e : [] ≡ items = Perm.nil-eq p in absurd (omega (arith, ap length e))
not_empty (x ∷ l) items p h = omega arith

module _ {D : Type 0} where
  -- The larger key stands first, and with equal keys the smaller PID.
  abbrev pub LargestFirst :
      {K : Type 0} → (K → K → Bool) → (NeoProcess D → K) → NeoProcess D → NeoProcess D → Type 0
  LargestFirst lt key a b =
      (lt (key b) (key a) ≡ true)
      ⊎ ((lt (key a) (key b) ≡ false) × (lt (key b) (key a) ≡ false) × (leb_ℤ a.pid b.pid ≡ true))

module _ {D : Type 0} (F : Double D) where
  -- What the sort modes mean: the share of CPU time or memory, the resident memory and the two rates of
  -- I/O from the largest on, and the PIDs from the smallest on.
  abbrev pub Before : NeoSortMode → NeoProcess D → NeoProcess D → Type 0
  Before sort_cpu = LargestFirst F.lt (λ p. p.cpu_percent)
  Before sort_mem = LargestFirst F.lt (λ p. p.mem_percent)
  Before sort_pid = λ a b. leb_ℤ a.pid b.pid ≡ true
  Before sort_rss = LargestFirst ltb (λ p. p.rss_kb)
  Before sort_io_read = LargestFirst F.lt (λ p. p.io_read_mb_s)
  Before sort_io_write = LargestFirst F.lt (λ p. p.io_write_mb_s)

  -- `reverse` exchanges the two.
  abbrev pub Displayed : NeoSortMode → Bool → NeoProcess D → NeoProcess D → Type 0
  Displayed mode reversed a b = if reversed then Before mode b a else Before mode a b

  by_pid_lem : (a b : NeoProcess D) → leb_ℤ (by_pid a b) (pos 0) ≡ true → leb_ℤ a.pid b.pid ≡ true
  unfolding by_pid
  by_pid_lem a b h = ground arith

  descending-LargestFirst :
      {K : Type 0} (lt : K → K → Bool) (key : NeoProcess D → K) (a b : NeoProcess D)
      → leb_ℤ (descending lt (key a) (key b) (by_pid a b)) (pos 0) ≡ true
      → LargestFirst lt key a b
  descending-LargestFirst lt key a b h = ground (arith, h, by_pid_lem a b)

  -- The comparison decides what the mode means.
  compare_processes-Before :
      (mode : NeoSortMode) (a b : NeoProcess D)
      → leb_ℤ (compare_processes F a b mode) (pos 0) ≡ true
      → Before mode a b
  unfolding compare_processes
  compare_processes-Before sort_cpu a b h = descending-LargestFirst F.lt (λ p. p.cpu_percent) a b h
  compare_processes-Before sort_mem a b h = descending-LargestFirst F.lt (λ p. p.mem_percent) a b h
  compare_processes-Before sort_pid a b h = by_pid_lem a b h
  compare_processes-Before sort_rss a b h = descending-LargestFirst ltb (λ p. p.rss_kb) a b h
  compare_processes-Before sort_io_read a b h =
      descending-LargestFirst F.lt (λ p. p.io_read_mb_s) a b h
  compare_processes-Before sort_io_write a b h =
      descending-LargestFirst F.lt (λ p. p.io_write_mb_s) a b h

  -- The order of the comparison, or its opposite.
  abbrev displayed : NeoSortMode → Bool → NeoProcess D → NeoProcess D → ℤ
  displayed mode reversed a b =
      if reversed then compare_processes F b a mode else compare_processes F a b mode

  displayed-Displayed :
      (mode : NeoSortMode) (reversed : Bool) (a b : NeoProcess D)
      → leb_ℤ (displayed mode reversed a b) (pos 0) ≡ true
      → Displayed mode reversed a b
  displayed-Displayed mode true a b h = compare_processes-Before mode b a h
  displayed-Displayed mode false a b h = compare_processes-Before mode a b h

-- Every item stands before all that follow it.
abbrev pub Sorted : {A : Type 0} → (A → A → Type 0) → List A → Type 0
Sorted R [] = Unit
Sorted R (x ∷ l) = All (R x) l × Sorted R l

All-implied :
    {A : Type 0} {P Q : A → Type 0} → ((a : A) → P a → Q a) → (l : List A) → All P l → All Q l
All-implied f [] h = tt
All-implied f (x ∷ l) (p, h) = (f x p, All-implied f l h)

InOrder-Sorted :
    {A : Type 0} (cmp : A → A → ℤ) (R : A → A → Type 0)
    → ((a b : A) → leb_ℤ (cmp a b) (pos 0) ≡ true → R a b)
    → (l : List A) → InOrder cmp l
    → Sorted R l
InOrder-Sorted cmp R f [] h = tt
InOrder-Sorted cmp R f (x ∷ l) (a, h) = (All-implied (f x) l a, InOrder-Sorted cmp R f l h)

module _ {D : Type 0} (F : Double D) (qsort : Qsort (NeoProcess D)) where
  -- As below, in the order of the comparison.
  sort_processes-compared :
      (items : List (NeoProcess D)) (mode : NeoSortMode) (reversed : Bool)
      → IsOrdered F
      → QsortSorts qsort
      → All (HasNumbers F) items
      → Perm (sort_processes F qsort items mode reversed) items
        × InOrder (displayed F mode reversed) (sort_processes F qsort items mode reversed)
  unfolding sort_processes
  sort_processes-compared items mode reversed o q numbers =
      elim (Bool-cases (ltb (length items) 2)) [
        | inl short ↦
            rw short
              (Perm.refl items, InOrder-short (displayed F mode reversed) items (ground arith))
        | inr long ↦ rw long (finish reversed long)
      ]
    where
      cmp : NeoProcess D → NeoProcess D → ℤ
      cmp a b = compare_processes F a b mode

      ordered : Perm (qsort cmp items) items × InOrder cmp (qsort cmp items)
      ordered = q.sorts (HasNumbers F) cmp (compare_processes-IsConsistent F o mode) items numbers

      finish :
          (r : Bool)
          → ltb (length items) 2 ≡ false
          → let result =
              if r
              then swap_ends
                  (length (qsort cmp items))
                  0
                  (length (qsort cmp items) - 1)
                  (qsort cmp items)
              else qsort cmp items in
            Perm result items × InOrder (displayed F mode r) result
      finish false long = ordered
      finish true long =
          rw
            (swap_ends-eq-reverse (qsort cmp items)
              (not_empty (qsort cmp items) items ordered.0 (ground arith)))
            (
              Perm.trans (reverse_perm (qsort cmp items)) ordered.0,
              InOrder-reverse cmp (qsort cmp items) ordered.1,
            )

  -- The displayed list has the scanned processes, each as often as before. With --sort cpu, mem, rss, read
  -- and write, no process stands behind one with a smaller value, and of those with the same
  -- value the smaller PID stands first; with --sort pid the PIDs ascend; with --reverse all of that is the
  -- other way round. This is given that `qsort` sorts by a consistent comparator, that `double` is
  -- ordered, and that no sort key is NaN.
  pub sort_processes-InOrder :
      (items : List (NeoProcess D)) (mode : NeoSortMode) (reversed : Bool)
      → IsOrdered F
      → QsortSorts qsort
      → All (HasNumbers F) items
      → Perm (sort_processes F qsort items mode reversed) items
        × Sorted (Displayed F mode reversed) (sort_processes F qsort items mode reversed)
  sort_processes-InOrder items mode reversed o q numbers =
      let (same, ordered) = sort_processes-compared items mode reversed o q numbers in
      (
        same,
        InOrder-Sorted (displayed F mode reversed) (Displayed F mode reversed)
            (displayed-Displayed F mode reversed) _ ordered,
      )
