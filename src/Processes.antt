-- ===== src/Processes.antt =====
-- src/monitoring_services_core.c: the list of processes and the list of previous samples.
-- `alloc n` says whether `realloc` to room for `n` items succeeds.
pub mod Growth
pub mod Previous
mod Tests
use application_monitoring.Prelude.{
  ℕ, ℤ, zero, suc, ◌+◌, ◌*◌, Bool, true, false, List, [], ◌∷◌, ◌++◌, Option, none, some, leb, ◌==◌,
  eqb_ℤ, if◌then◌else◌, length, set,
}
use application_monitoring.Text.{Bytes}
use application_monitoring.Types.{NeoProcess, NeoProcessList, NeoPreviousSample, initial_capacity}

-- Also `append_pattern`, whose copy of the string may fail too.
unfoldable pub append_pid : (ℕ → Bool) → List ℤ → ℤ → Option (List ℤ)
append_pid alloc array pid = if alloc (length array + 1) then some (array ++ pid ∷ []) else none

-- `copied` says whether `strdup` succeeds.
unfoldable pub append_pattern : Bool → (ℕ → Bool) → List Bytes → Bytes → Option (List Bytes)
append_pattern copied alloc array pattern =
    if copied
    then (if alloc (length array + 1) then some (array ++ pattern ∷ []) else none)
    else none

module _ {D : Type 0} where
  abbrev pub process_list_init : NeoProcessList D
  process_list_init = record { items = []; capacity = 0 }

  abbrev pub process_list_free : NeoProcessList D → NeoProcessList D
  process_list_free list = record { items = []; capacity = 0 }

  unfoldable pub process_list_reserve :
      (ℕ → Bool) → NeoProcessList D → ℕ → Option (NeoProcessList D)
  process_list_reserve alloc list capacity =
      if leb capacity list.capacity
      then some list
      else if alloc capacity
      then some (record list { capacity = capacity })
      else none

  -- A list that is full doubles its capacity first.
  unfoldable pub process_list_add :
      (ℕ → Bool) → NeoProcessList D → NeoProcess D → Option (NeoProcessList D)
  unfolding process_list_reserve
  process_list_add alloc list process =
      let add : NeoProcessList D → NeoProcessList D =
        λ l. record l { items = l.items ++ process ∷ [] } in
      if leb list.capacity (length list.items)
      then elim (process_list_reserve alloc list
          (if list.capacity == 0 then initial_capacity else list.capacity * 2)) [
            | none ↦ none
            | some l ↦ some (add l)
          ]
      else some (add list)

-- The position of the sample with the PID.
unfoldable pub previous_find : List NeoPreviousSample → ℤ → Option ℕ
previous_find [] pid = none
previous_find (x ∷ items) pid =
    if eqb_ℤ x.pid pid
    then some 0
    else elim (previous_find items pid) [ none ↦ none | some i ↦ some (suc i) ]

abbrev pub sample_of : {D : Type 0} → NeoProcess D → NeoPreviousSample
sample_of process = record {
  pid = process.pid;
  total_time = process.total_time;
  read_bytes = process.read_bytes;
  write_bytes = process.write_bytes;
}

-- The three counters of the sample at a position are overwritten.
update_sample : {D : Type 0} → List NeoPreviousSample → ℕ → NeoProcess D → List NeoPreviousSample
update_sample [] i process = []
update_sample (x ∷ items) zero process =
    record x {
      total_time = process.total_time;
      read_bytes = process.read_bytes;
      write_bytes = process.write_bytes;
    }
    ∷ items
update_sample (x ∷ items) (suc i) process = x ∷ update_sample items i process

unfoldable pub previous_set :
    {D : Type 0}
    → (ℕ → Bool)
    → List NeoPreviousSample
    → NeoProcess D
    → Option (List NeoPreviousSample)
unfolding previous_find update_sample
previous_set alloc list process = elim (previous_find list process.pid) [
  | some index ↦ some (update_sample list index process)
  | none ↦ if alloc (length list + 1) then some (list ++ sample_of process ∷ []) else none
]
