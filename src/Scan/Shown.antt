-- ===== src/Scan/Shown.antt =====
-- What a scan should show and which samples it should leave, as functions of the processes that are
-- monitored.
use application_monitoring.Prelude.{
  ℕ, ℤ, ◌+◌, ◌≡◌, ◌≢◌, refl, Bool, true, List, [], ◌∷◌, ◌++◌, Option, none, some, arith, eqb_ℤ,
  eqb_ℤ_iff, if◌then◌else◌, Option-cases, Bool-cases, inl, inr, length, All,
}
use application_monitoring.Text.{Bytes}
use application_monitoring.Double.{Double}
use application_monitoring.Types.{NeoConfig, NeoProcess, NeoPreviousSample, NeoSystemInfo}
use application_monitoring.Processes.{previous_set, previous_find, sample_of}
use application_monitoring.Processes.Previous.{previous_sample, previous_sample-previous_set}
use application_monitoring.Scan.{below_threshold, measured, candidate}

module _ {D : Type 0} where
  -- No two of the processes have the same PID.
  abbrev pub Distinct : List (NeoProcess D) → Type 0
  Distinct [] = Unit
  Distinct (p ∷ processes) = All (λ q. q.pid ≢ p.pid) processes × Distinct processes

  -- The baseline of a PID once the processes have been scanned: the counters of the process with the
  -- PID if it is there, and otherwise the sample that there was.
  unfoldable pub baseline :
      List NeoPreviousSample → List (NeoProcess D) → ℤ → Option NeoPreviousSample
  baseline previous [] pid = previous_sample previous pid
  baseline previous (p ∷ processes) pid =
      if eqb_ℤ p.pid pid then some (sample_of p) else baseline previous processes pid

  -- Where memory can be had, a PID's sample is set.
  pub previous_set_lem :
      (room : ℕ → Bool) (list : List NeoPreviousSample) (p : NeoProcess D)
      → ((n : ℕ) → room n ≡ true)
      → (list' : List NeoPreviousSample) × (previous_set room list p ≡ some list')
        × ((pid : ℤ)
            → previous_sample list' pid
              ≡ (if eqb_ℤ p.pid pid then some (sample_of p) else previous_sample list pid))
  unfolding previous_set
  previous_set_lem room list p h = elim (Option-cases (previous_set room list p)) [
    | inl e ↦ absurd (ground (arith, h (length list + 1), Option-cases (previous_find list p.pid)))
    | inr (list', e) ↦ (list', e, previous_sample-previous_set room list p e)
  ]

  -- A sample that is set shows in the baselines.
  pub baseline-set :
      (a b : List NeoPreviousSample) (p : NeoProcess D) (processes : List (NeoProcess D)) (pid : ℤ)
      → (previous_sample b pid
          ≡ (if eqb_ℤ p.pid pid then some (sample_of p) else previous_sample a pid))
      → All (λ q. q.pid ≢ p.pid) processes
      → baseline b processes pid
        ≡ (if eqb_ℤ p.pid pid then some (sample_of p) else baseline a processes pid)
  unfolding baseline
  baseline-set a b p [] pid h d = h
  baseline-set a b p (q ∷ processes) pid h (n, d) =
      ground
        (arith, n, baseline-set a b p processes pid h d, eqb_ℤ_iff q.pid pid, eqb_ℤ_iff p.pid pid)

module _ {D : Type 0} (config : NeoConfig D) (collect : ℤ → Option (NeoProcess D)) where
  -- The processes that the entries of /proc stand for and that are monitored.
  unfoldable pub candidates : List Bytes → List (NeoProcess D)
  candidates [] = []
  candidates (name ∷ names) = elim (candidate config collect name) [
    | none ↦ candidates names
    | some p ↦ p ∷ candidates names
  ]

  pub candidates-none :
      (name : Bytes) (names : List Bytes)
      → candidate config collect name ≡ none
      → candidates (name ∷ names) ≡ candidates names
  unfolding candidates
  candidates-none name names e = rw (candidates, e) refl

  pub candidates-some :
      (name : Bytes) (names : List Bytes) (p : NeoProcess D)
      → candidate config collect name ≡ some p
      → candidates (name ∷ names) ≡ p ∷ candidates names
  unfolding candidates
  candidates-some name names p e = rw (candidates, e) refl

module _ {D : Type 0} (F : Double D) (config : NeoConfig D) (system : NeoSystemInfo) (interval : D)
    (now : ℤ → ℤ) (ticks : ℤ) where
  -- The processes that a list shows: those of the candidates that are not below a threshold, with the
  -- metrics against the previous samples.
  unfoldable pub shown : List NeoPreviousSample → List (NeoProcess D) → List (NeoProcess D)
  shown previous [] = []
  shown previous (p ∷ processes) =
      let rest = shown previous processes in
      let next = measured F config system interval now ticks previous p in
      if below_threshold F config next then rest else next ∷ rest

  pub shown-cons :
      (previous : List NeoPreviousSample) (p : NeoProcess D) (processes : List (NeoProcess D))
      → shown previous (p ∷ processes) ≡ shown previous (p ∷ []) ++ shown previous processes
  unfolding shown
  shown-cons previous p processes =
      elim (Bool-cases
        (below_threshold F config (measured F config system interval now ticks previous p))) [
          | inl e ↦ rw e refl
          | inr e ↦ rw e refl
        ]

  -- A sample that is set for another PID changes nothing of what is shown.
  pub shown-set :
      (a b : List NeoPreviousSample) (p : NeoProcess D) (processes : List (NeoProcess D))
      → ((pid : ℤ)
          → previous_sample b pid
            ≡ (if eqb_ℤ p.pid pid then some (sample_of p) else previous_sample a pid))
      → All (λ q. q.pid ≢ p.pid) processes
      → shown b processes ≡ shown a processes
  unfolding shown measured
  shown-set a b p [] set d = refl
  shown-set a b p (q ∷ processes) set (n, d) =
      let same : previous_sample b q.pid ≡ previous_sample a q.pid =
        ground (arith, n, set q.pid, eqb_ℤ_iff p.pid q.pid) in
      rw (same, shown-set a b p processes set d) refl
