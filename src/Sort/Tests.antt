-- ===== src/Sort/Tests.antt =====
-- Sorting concrete processes, with an insertion sort in the place of `qsort`.
use mathlib.Core.List.{Perm}
use mathlib.Core.List.Perm
use application_monitoring.Prelude.{
  ℕ, ℤ, pos, ◌≡◌, ◌⊎◌, false, refl, true, List, [], ◌∷◌, arith, leb_ℤ, Bool-cases, inl, inr,
  if◌then◌else◌, All,
}
use application_monitoring.Text.{Bytes, codes}
use application_monitoring.Double.{milli, milli-IsOrdered}
use application_monitoring.Types.{NeoProcess, sort_mem, sort_cpu}
use application_monitoring.Examples.{process_of}
use application_monitoring.Sort.{Qsort, compare_processes, sort_processes}
use application_monitoring.Sort.Consistent.{
  IsConsistent, HasNumbers, compare_processes_consistent, opposite,
}
use application_monitoring.Sort.Sorted.{
  InOrder, Sorted, QsortSorts, Displayed, sort_processes-InOrder,
}

module _ {A : Type 0} (cmp : A → A → ℤ) where
  insert_sorted : A → List A → List A
  insert_sorted x [] = x ∷ []
  insert_sorted x (y ∷ l) = if leb_ℤ (cmp x y) (pos 0) then x ∷ y ∷ l else y ∷ insert_sorted x l

insertion_sort : {A : Type 0} → Qsort A
unfolding insert_sorted
insertion_sort cmp [] = []
insertion_sort cmp (x ∷ l) = insert_sorted cmp x (insertion_sort cmp l)

module _ {A : Type 0} (P : A → Type 0) (cmp : A → A → ℤ) (c : IsConsistent P cmp) where
  insert_sorted-perm : (x : A) (l : List A) → Perm (insert_sorted cmp x l) (x ∷ l)
  unfolding insert_sorted
  insert_sorted-perm x [] = Perm.refl (x ∷ [])
  insert_sorted-perm x (y ∷ l) = elim (Bool-cases (leb_ℤ (cmp x y) (pos 0))) [
    | inl e ↦ rw e (Perm.refl (x ∷ y ∷ l))
    | inr e ↦ rw e (Perm.trans (Perm.cons y (insert_sorted-perm x l)) (Perm.swap x y l))
  ]

  All-insert_sorted :
      (Q : A → Type 0) (x : A) (l : List A) → Q x → All Q l → All Q (insert_sorted cmp x l)
  unfolding insert_sorted
  All-insert_sorted Q x [] qx h = (qx, tt)
  All-insert_sorted Q x (y ∷ l) qx (qy, h) = elim (Bool-cases (leb_ℤ (cmp x y) (pos 0))) [
    | inl e ↦ rw e (qx, (qy, h))
    | inr e ↦ rw e (qy, All-insert_sorted Q x l qx h)
  ]

  All-below :
      (x y : A) (l : List A)
      → P x
      → P y
      → leb_ℤ (cmp x y) (pos 0) ≡ true
      → All P l
      → All (λ z. leb_ℤ (cmp y z) (pos 0) ≡ true) l
      → All (λ z. leb_ℤ (cmp x z) (pos 0) ≡ true) l
  All-below x y [] px py e ps h = tt
  All-below x y (z ∷ l) px py e (pz, ps) (k, h) =
      (c.trans x y z px py pz e k, All-below x y l px py e ps h)

  insert_sorted-InOrder :
      (x : A) (l : List A) → P x → All P l → InOrder cmp l → InOrder cmp (insert_sorted cmp x l)
  unfolding insert_sorted
  insert_sorted-InOrder x [] px ps h = (tt, tt)
  insert_sorted-InOrder x (y ∷ l) px (py, ps) (a, h) = elim (Bool-cases (leb_ℤ (cmp x y) (pos 0))) [
    | inl e ↦ rw e ((e, All-below x y l px py e ps a), (a, h))
    | inr e ↦
        let f : leb_ℤ (cmp y x) (pos 0) ≡ true = ground (arith, c.antisym x y px py) in
        rw e (All-insert_sorted _ x l f a, insert_sorted-InOrder x l px ps h)
  ]

  insertion_sort-sorts :
      (l : List A)
      → All P l
      → Perm (insertion_sort cmp l) l
        × All P (insertion_sort cmp l)
        × InOrder cmp (insertion_sort cmp l)
  unfolding insertion_sort
  insertion_sort-sorts [] h = (Perm.refl [], tt, tt)
  insertion_sort-sorts (x ∷ l) (px, h) =
      let (perm, all, order) = insertion_sort-sorts l h in
      (
        Perm.trans (insert_sorted-perm x (insertion_sort cmp l)) (Perm.cons x perm),
        All-insert_sorted P x (insertion_sort cmp l) px all,
        insert_sorted-InOrder x (insertion_sort cmp l) px all order,
      )

insertion_sort-QsortSorts : {A : Type 0} → QsortSorts (insertion_sort {A = A})
insertion_sort-QsortSorts = record {
  sorts = λ P cmp c l h. let (perm, all, order) = insertion_sort-sorts P cmp c l h in (perm, order);
}

number_keys : (pid : ℤ) (comm : Bytes) (time : ℕ) → HasNumbers milli (process_of pid comm time)
number_keys pid comm time = record { cpu = refl; mem = refl; io_read = refl; io_write = refl }

abbrev small : NeoProcess ℕ
small = record (process_of (pos 3) (codes "a") 5) { mem_percent = 100; cpu_percent = 900 }

abbrev large : NeoProcess ℕ
large = record (process_of (pos 4) (codes "b") 5) { mem_percent = 700; cpu_percent = 200 }

by_memory :
    sort_processes milli insertion_sort (small ∷ large ∷ []) sort_mem false ≡ large ∷ small ∷ []
unfolding sort_processes insertion_sort
by_memory = refl

numbers : All (HasNumbers milli) (small ∷ large ∷ [])
numbers = (
  record { cpu = refl; mem = refl; io_read = refl; io_write = refl },
  (record { cpu = refl; mem = refl; io_read = refl; io_write = refl }, tt),
)

sort_processes-InOrder_example :
    Perm
      (sort_processes milli insertion_sort (small ∷ large ∷ []) sort_mem true)
      (small ∷ large ∷ [])
    × Sorted
        (Displayed milli sort_mem true)
        (sort_processes milli insertion_sort (small ∷ large ∷ []) sort_mem true)
sort_processes-InOrder_example =
    sort_processes-InOrder milli insertion_sort (small ∷ large ∷ []) sort_mem true milli-IsOrdered
      insertion_sort-QsortSorts numbers

abbrev first : NeoProcess ℕ
first = process_of (pos 3) (codes "a") 5

abbrev second : NeoProcess ℕ
second = process_of (pos 1) (codes "b") 7

compare_processes_consistent_example :
    (compare_processes milli first second sort_cpu
      ≡ opposite (compare_processes milli second first sort_cpu))
    × ((leb_ℤ (compare_processes milli first second sort_cpu) (pos 0) ≡ false)
        ⊎ (leb_ℤ (compare_processes milli second second sort_cpu) (pos 0) ≡ false)
        ⊎ (leb_ℤ (compare_processes milli first second sort_cpu) (pos 0) ≡ true))
compare_processes_consistent_example =
    compare_processes_consistent milli milli-IsOrdered sort_cpu first second second
      (number_keys (pos 3) (codes "a") 5) (number_keys (pos 1) (codes "b") 7)
      (number_keys (pos 1) (codes "b") 7)
