-- ===== src/Sort.antt =====
-- src/monitoring_services_core.c: the order of the displayed processes. `qsort` of <stdlib.h> is an
-- argument. The comparison returns -1, 0 or 1; the global that passes it the mode is its argument.
pub mod Consistent
pub mod Reversal
pub mod Sorted
mod Tests
use application_monitoring.Prelude.{
  ℕ, ℤ, pos, negsuc, zero, suc, ◌+◌, ◌-◌, Bool, true, false, List, [], ◌∷◌, Option, none, some, ltb,
  ltb_ℤ, if◌then◌else◌, length, get_elem?, set,
}
use application_monitoring.Double.{Double}
use application_monitoring.Types.{
  NeoProcess, NeoSortMode, sort_cpu, sort_mem, sort_pid, sort_rss, sort_io_read, sort_io_write,
}

module _ {D : Type 0} where
  -- The tie-breaker.
  by_pid : NeoProcess D → NeoProcess D → ℤ
  by_pid a b = if ltb_ℤ b.pid a.pid then pos 1 else if ltb_ℤ a.pid b.pid then negsuc 0 else pos 0

-- The larger key first; equal keys fall through.
abbrev descending : {K : Type 0} → (K → K → Bool) → K → K → ℤ → ℤ
descending lt x y tie = if lt x y then pos 1 else if lt y x then negsuc 0 else tie

module _ {D : Type 0} (F : Double D) where
  unfoldable pub compare_processes : NeoProcess D → NeoProcess D → NeoSortMode → ℤ
  unfolding by_pid
  compare_processes a b sort_cpu = descending F.lt a.cpu_percent b.cpu_percent (by_pid a b)
  compare_processes a b sort_mem = descending F.lt a.mem_percent b.mem_percent (by_pid a b)
  compare_processes a b sort_pid = by_pid a b
  compare_processes a b sort_rss = descending ltb a.rss_kb b.rss_kb (by_pid a b)
  compare_processes a b sort_io_read = descending F.lt a.io_read_mb_s b.io_read_mb_s (by_pid a b)
  compare_processes a b sort_io_write = descending F.lt a.io_write_mb_s b.io_write_mb_s (by_pid a b)

-- The body of the loop: two items change places.
swap : {A : Type 0} → List A → ℕ → ℕ → List A
swap items i j = elim (get_elem? items i) [
  | none ↦ items
  | some x ↦ elim (get_elem? items j) [ none ↦ items | some y ↦ set (set items i y) j x ]
]

-- for (; i < j; ++i, --j); the number of items bounds the rounds.
pub swap_ends : {A : Type 0} → ℕ → ℕ → ℕ → List A → List A
unfolding swap
swap_ends zero i j items = items
swap_ends (suc rounds) i j items = elim (ltb i j) [
  | true ↦ swap_ends rounds (i + 1) (j - 1) (swap items i j)
  | false ↦ items
]

-- The signature of `qsort`, at the items of the list.
abbrev pub Qsort : Type 0 → Type 0
Qsort A = (A → A → ℤ) → List A → List A

unfoldable pub sort_processes :
    {D : Type 0}
    → Double D
    → Qsort (NeoProcess D)
    → List (NeoProcess D)
    → NeoSortMode
    → Bool
    → List (NeoProcess D)
unfolding swap_ends compare_processes
sort_processes F qsort items mode reversed =
    if ltb (length items) 2
    then items
    else let ordered = qsort (λ a b. compare_processes F a b mode) items in
      if reversed then swap_ends (length ordered) 0 (length ordered - 1) ordered else ordered
