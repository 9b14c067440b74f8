-- ===== src/Scan/Baseline.antt =====
-- What a scan shows, and which baselines it leaves for the next one.
use application_monitoring.Prelude.{
  ℕ, ℤ, subst, ◌∙◌, ◌≡◌, ◌≢◌, refl, sym, Bool, true, List, [], ◌∷◌, ◌++◌, append-nil, append_assoc,
  Option, some, eqb_ℤ, if◌then◌else◌, Option-cases, Bool-cases, inl, inr, All,
}
use application_monitoring.Text.{Bytes}
use application_monitoring.Double.{Double}
use application_monitoring.Types.{
  NeoConfig, NeoProcess, NeoProcessList, NeoPreviousSample, NeoSystemInfo,
}
use application_monitoring.Processes.{process_list_init, sample_of}
use application_monitoring.Processes.Previous.{previous_sample}
use application_monitoring.Metrics.{update_metrics}
use application_monitoring.Scan.{
  ScanResult, below_threshold, measured, set_baseline, scan_process, candidate, scan_loop,
  scan_processes,
}
use application_monitoring.Processes.Growth.{process_list_add_lem}
use application_monitoring.Scan.Shown.{
  Distinct, baseline, candidates, shown, previous_set_lem, baseline-set, shown-set, candidates-none,
  candidates-some, shown-cons,
}

module _ {D : Type 0} (F : Double D) (config : NeoConfig D) (system : NeoSystemInfo) (interval : D)
    (now : ℤ → ℤ) (ticks : ℤ) where
  module _ (list_room previous_room : ℕ → Bool) (list_has : (n : ℕ) → list_room n ≡ true)
      (previous_has : (n : ℕ) → previous_room n ≡ true) where
    set_baseline_lem :
        (list : NeoProcessList D) (previous : List NeoPreviousSample) (p : NeoProcess D)
        → let r =
            set_baseline F config system interval now ticks list_room previous_room list previous
              p in
          (r.ok ≡ true)
          × (r.list ≡ list)
          × ((pid : ℤ)
              → previous_sample r.previous pid
                ≡ (if eqb_ℤ p.pid pid then some (sample_of p) else previous_sample previous pid))
    unfolding set_baseline
    set_baseline_lem list previous p =
        let (previous', e, set) = previous_set_lem previous_room previous p previous_has in
        rw (set_baseline, e) (refl, refl, set)

    shown-step :
        (list list' : NeoProcessList D) (a b : List NeoPreviousSample) (p : NeoProcess D)
        (processes : List (NeoProcess D))
        → (list'.items ≡ list.items ++ shown F config system interval now ticks a (p ∷ []))
        → ((pid : ℤ)
            → previous_sample b pid
              ≡ (if eqb_ℤ p.pid pid then some (sample_of p) else previous_sample a pid))
        → All (λ q. q.pid ≢ p.pid) processes
        → list'.items ++ shown F config system interval now ticks b processes
          ≡ list.items ++ shown F config system interval now ticks a (p ∷ processes)
    shown-step list list' a b p processes items set apart =
        rw
          (
            items,
            shown-set F config system interval now ticks a b p processes set apart,
            shown-cons F config system interval now ticks a p processes,
          )
          (append_assoc list.items (shown F config system interval now ticks a (p ∷ []))
            (shown F config system interval now ticks a processes))

    scan_process_lem :
        (list : NeoProcessList D) (previous : List NeoPreviousSample) (p : NeoProcess D)
        → let r =
            scan_process F config system interval now ticks list_room previous_room list previous
              p in
          (r.ok ≡ true)
          × (r.list.items
              ≡ list.items ++ shown F config system interval now ticks previous (p ∷ []))
          × ((pid : ℤ)
              → previous_sample r.previous pid
                ≡ (if eqb_ℤ p.pid pid then some (sample_of p) else previous_sample previous pid))
    unfolding scan_process shown measured update_metrics
    scan_process_lem list previous p =
        let next = measured F config system interval now ticks previous p in
        elim (Bool-cases (below_threshold F config next)) [
          | inl e ↦
              let (ok, same, set) = set_baseline_lem list previous next in
              rw (scan_process, e, same) (ok, sym (append-nil list.items), set)
          | inr e ↦
              let (list', f, items) = process_list_add_lem list_room list next list_has in
              let (ok, same, set) = set_baseline_lem list' previous next in
              rw (scan_process, e, f, same) (ok, items, set)
        ]

    module _ (collect : ℤ → Option (NeoProcess D)) where
      -- What a loop that starts with these lists returns.
      abbrev Scanned :
          NeoProcessList D
          → List NeoPreviousSample
          → List (NeoProcess D)
          → ScanResult D
          → ℤ
          → Type 0
      Scanned list previous processes r pid =
          (r.ok ≡ true)
          × (r.list.items
              ≡ list.items ++ shown F config system interval now ticks previous processes)
          × (previous_sample r.previous pid ≡ baseline previous processes pid)

      scan_loop_lem :
          (list : NeoProcessList D) (previous : List NeoPreviousSample) (names : List Bytes)
          (pid : ℤ)
          → Distinct (candidates config collect names)
          → Scanned list previous
              (candidates config collect names)
              (scan_loop F config system interval now ticks list_room previous_room collect list
                previous names)
              pid
      unfolding scan_loop candidates shown baseline
      scan_loop_lem list previous [] pid d = (refl, sym (append-nil list.items), refl)
      scan_loop_lem list previous (name ∷ names) pid d =
          elim (Option-cases (candidate config collect name)) [
            | inl e ↦
                let f = candidates-none config collect name names e in
                rw (scan_loop, e, f) (scan_loop_lem list previous names pid (subst Distinct f d))
            | inr (p, e) ↦
                let f = candidates-some config collect name names p e in
                let r =
                  scan_process F config system interval now ticks list_room previous_room list
                    previous p in
                let (ok, items, set) = scan_process_lem list previous p in
                let (apart, d') = subst Distinct f d in
                let (ok', items', set') = scan_loop_lem r.list r.previous names pid d' in
                rw (scan_loop, f, e, ok)
                  (
                    ok',
                    items'
                        ∙ shown-step list r.list previous r.previous p
                            (candidates config collect names) items set apart,
                    set'
                        ∙ baseline-set previous r.previous p (candidates config collect names) pid
                            (set pid) apart,
                  )
          ]

      -- Where memory can be had and no two of the monitored processes have the same PID, a scan succeeds.
      -- The list then holds, in the order of /proc, the monitored processes that are below no threshold,
      -- with metrics against the samples from before the scan, and nothing of the list before; and the
      -- sample of every monitored process, shown or not, is its counters now, while any other PID keeps
      -- the sample that it had.
      pub scan_processes_lem :
          (list : NeoProcessList D) (previous : List NeoPreviousSample) (names : List Bytes)
          → Distinct (candidates config collect names)
          → (pid : ℤ)
          → let r =
              scan_processes F config system interval now ticks list_room previous_room collect list
                previous
                (some names) in
            (r.ok ≡ true)
            × (r.list.items
                ≡ shown F config system interval now ticks previous
                    (candidates config collect names))
            × (previous_sample r.previous pid
                ≡ baseline previous (candidates config collect names) pid)
      unfolding scan_processes
      scan_processes_lem list previous names d pid =
          scan_loop_lem process_list_init previous names pid d
