-- ===== src/Processes/Previous.antt =====
-- The list of previous samples is a map from PIDs to counters.
use application_monitoring.Prelude.{
  ℕ, ℤ, zero, suc, ◌+◌, ◌≡◌, ◌≢◌, Bool, true, false, List, [], ◌∷◌, ◌++◌, Option, none, some, arith,
  eqb_ℤ, eqb_ℤ_iff, if◌then◌else◌, Option-cases, inl, inr, length, get_elem?, All, All-append, sym,
}
use application_monitoring.Types.{NeoProcess, NeoPreviousSample}
use application_monitoring.Processes.{previous_find, sample_of, update_sample, previous_set}

-- The sample that the code uses for a PID: the one at the position that `previous_find` gives.
unfoldable pub previous_sample : List NeoPreviousSample → ℤ → Option NeoPreviousSample
previous_sample list pid = elim (previous_find list pid) [ none ↦ none | some i ↦ get_elem? list i ]

-- No PID has two samples.
abbrev pub PidsDiffer : List NeoPreviousSample → Type 0
PidsDiffer [] = Unit
PidsDiffer (x ∷ list) = All (λ y. y.pid ≢ x.pid) list × PidsDiffer list

-- `previous_sample` walks the list.
previous_sample-cons :
    (x : NeoPreviousSample) (list : List NeoPreviousSample) (pid : ℤ)
    → previous_sample (x ∷ list) pid
      ≡ (if eqb_ℤ x.pid pid then some x else previous_sample list pid)
unfolding previous_sample previous_find
previous_sample-cons x list pid = ground arith

-- A hit overwrites the counters of the sample, and keeps its PID.
previous_sample-update_sample :
    {D : Type 0} (list : List NeoPreviousSample) (i : ℕ) (process : NeoProcess D) (pid : ℤ)
    → previous_find list process.pid ≡ some i
    → previous_sample (update_sample list i process) pid
      ≡ (if eqb_ℤ process.pid pid then some (sample_of process) else previous_sample list pid)
unfolding update_sample previous_find
previous_sample-update_sample [] i process pid h = cc
previous_sample-update_sample (x ∷ list) zero process pid h =
    let hit : x.pid ≡ process.pid = ground (arith, eqb_ℤ_iff x.pid process.pid) in
    rw
      (
        previous_sample-cons (record (sample_of process) { pid = x.pid }) list pid,
        previous_sample-cons x list pid,
      )
      (ground (arith, hit))
previous_sample-update_sample (x ∷ list) (suc i) process pid h =
    let miss : previous_find list process.pid ≡ some i = ground arith in
    let differs : eqb_ℤ x.pid process.pid ≡ false = ground arith in
    rw (previous_sample-cons x (update_sample list i process) pid, previous_sample-cons x list pid)
      (ground (
        arith,
        previous_sample-update_sample list i process pid miss,
        eqb_ℤ_iff x.pid pid,
        eqb_ℤ_iff process.pid pid,
        eqb_ℤ_iff x.pid process.pid,
        differs,
      ))

-- A miss adds the sample at the end.
previous_sample-append :
    {D : Type 0} (list : List NeoPreviousSample) (process : NeoProcess D) (pid : ℤ)
    → previous_find list process.pid ≡ none
    → previous_sample (list ++ sample_of process ∷ []) pid
      ≡ (if eqb_ℤ process.pid pid then some (sample_of process) else previous_sample list pid)
unfolding previous_find
previous_sample-append [] process pid h = previous_sample-cons (sample_of process) [] pid
previous_sample-append (x ∷ list) process pid h =
    rw
      (previous_sample-cons x (list ++ sample_of process ∷ []) pid, previous_sample-cons x list pid)
      (ground (
        arith,
        previous_sample-append list process pid,
        eqb_ℤ_iff x.pid pid,
        eqb_ℤ_iff process.pid pid,
        eqb_ℤ_iff x.pid process.pid,
      ))

-- Whenever `previous_set` succeeds, the sample of the process's PID is its counters, and every other
-- PID has the sample that it had.
pub previous_sample-previous_set :
    {D : Type 0} (alloc : ℕ → Bool) (list : List NeoPreviousSample) (process : NeoProcess D)
    {list' : List NeoPreviousSample}
    → previous_set alloc list process ≡ some list'
    → (pid : ℤ)
    → previous_sample list' pid
      ≡ (if eqb_ℤ process.pid pid then some (sample_of process) else previous_sample list pid)
unfolding previous_set
previous_sample-previous_set alloc list process {list'} h pid =
    elim (Option-cases (previous_find list process.pid)) [
      | inl e ↦
          let f : list' ≡ list ++ sample_of process ∷ [] = ground (arith, e) in
          rw f (previous_sample-append list process pid e)
      | inr (i, e) ↦
          let f : list' ≡ update_sample list i process = ground (arith, e) in
          rw f (previous_sample-update_sample list i process pid e)
    ]

All-update_sample :
    {D : Type 0} (pid : ℤ) (list : List NeoPreviousSample) (i : ℕ) (process : NeoProcess D)
    → All (λ y. y.pid ≢ pid) list
    → All (λ y. y.pid ≢ pid) (update_sample list i process)
unfolding update_sample
All-update_sample pid [] i process h = h
All-update_sample pid (x ∷ list) zero process h = h
All-update_sample pid (x ∷ list) (suc i) process (a, h) =
    (a, All-update_sample pid list i process h)

PidsDiffer-update_sample :
    {D : Type 0} (list : List NeoPreviousSample) (i : ℕ) (process : NeoProcess D)
    → PidsDiffer list
    → PidsDiffer (update_sample list i process)
unfolding update_sample
PidsDiffer-update_sample [] i process h = h
PidsDiffer-update_sample (x ∷ list) zero process h = h
PidsDiffer-update_sample (x ∷ list) (suc i) process (a, h) =
    (All-update_sample x.pid list i process a, PidsDiffer-update_sample list i process h)

absent-of_find :
    (list : List NeoPreviousSample) (pid : ℤ)
    → previous_find list pid ≡ none
    → All (λ y. y.pid ≢ pid) list
unfolding previous_find
absent-of_find [] pid h = tt
absent-of_find (x ∷ list) pid h =
    (ground (arith, eqb_ℤ_iff x.pid pid), absent-of_find list pid (ground arith))

PidsDiffer-append :
    (list : List NeoPreviousSample) (x : NeoPreviousSample)
    → All (λ y. y.pid ≢ x.pid) list
    → PidsDiffer list
    → PidsDiffer (list ++ x ∷ [])
PidsDiffer-append [] x a h = (tt, tt)
PidsDiffer-append (y ∷ list) x (n, a) (b, h) = (
  All-append (λ z. z.pid ≢ y.pid) list (x ∷ []) b ((λ e. n (sym e)), tt),
  PidsDiffer-append list x a h,
)

-- Where memory can be had `previous_set` succeeds, and it never gives a PID a second sample.
pub previous_set_total :
    {D : Type 0} (alloc : ℕ → Bool) (list : List NeoPreviousSample) (process : NeoProcess D)
    → PidsDiffer list
    → alloc (length list + 1) ≡ true
    → (list' : List NeoPreviousSample) × (previous_set alloc list process ≡ some list')
      × PidsDiffer list'
unfolding previous_set
previous_set_total alloc list process h room =
    elim (Option-cases (previous_find list process.pid)) [
      | inl e ↦ (
        list ++ sample_of process ∷ [],
        ground (arith, e),
        PidsDiffer-append list (sample_of process) (absent-of_find list process.pid e) h,
      )
      | inr (i, e) ↦ (
        update_sample list i process,
        ground (arith, e),
        PidsDiffer-update_sample list i process h,
      )
    ]
