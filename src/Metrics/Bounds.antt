-- ===== src/Metrics/Bounds.antt =====
-- The metrics stay in range: no rate from counters that went backwards, and no more CPU than there is.
use application_monitoring.Prelude.{
  ℤ, ◌≤◌, ◌<◌, ◌≡◌, ◌⊎◌, inl, inr, ltb, Bool-cases, refl, false, Option, none, some, arith,
}
use application_monitoring.Double.{Double, IsOrdered}
use application_monitoring.Types.{NeoProcess, NeoPreviousSample, NeoSystemInfo}
use application_monitoring.Metrics.{update_metrics}

module _ {D : Type 0} (F : Double D) (now ticks : ℤ) (interval : D) where
  -- Each rate is 0 unless there is a sample before, with a counter that is no higher than the present
  -- one: a process seen for the first time, or one that took over the PID of another, shows no
  -- artificial load.
  pub update_metrics_rate_or_zero :
      (process : NeoProcess D) (previous : Option NeoPreviousSample) (system : Option NeoSystemInfo)
      → let next = update_metrics F now ticks process previous system interval in
        ((next.cpu_percent ≡ F.ratio 0 1)
          ⊎ ((p : NeoPreviousSample) × (previous ≡ some p) × (p.total_time ≤ process.total_time)))
        × ((next.io_read_mb_s ≡ F.ratio 0 1)
            ⊎ ((p : NeoPreviousSample) × (previous ≡ some p) × (p.read_bytes ≤ process.read_bytes)))
        × ((next.io_write_mb_s ≡ F.ratio 0 1)
            ⊎ ((p : NeoPreviousSample) × (previous ≡ some p)
                × (p.write_bytes ≤ process.write_bytes)))
  unfolding update_metrics
  update_metrics_rate_or_zero process none system = (inl refl, inl refl, inl refl)
  update_metrics_rate_or_zero process (some p) system = (
    elim (Bool-cases (ltb process.total_time p.total_time)) [
      | inl e ↦ inl (ground (arith, e))
      | inr e ↦ inr (p, refl, ground (arith, e))
    ],
    elim (Bool-cases (ltb process.read_bytes p.read_bytes)) [
      | inl e ↦ inl (ground (arith, e))
      | inr e ↦ inr (p, refl, ground (arith, e))
    ],
    elim (Bool-cases (ltb process.write_bytes p.write_bytes)) [
      | inl e ↦ inl (ground (arith, e))
      | inr e ↦ inr (p, refl, ground (arith, e))
    ],
  )

  -- With more than one CPU no process is shown with more than 100 percent for each: given that
  -- `double` orders numbers and that 100.0 * n is not below 0.0.
  pub update_metrics_cpu_bound :
      (process : NeoProcess D) (previous : Option NeoPreviousSample) (system : NeoSystemInfo)
      → IsOrdered F
      → F.lt (F.mul (F.ratio 100 1) (F.of_ℕ system.cpu_count)) (F.ratio 0 1) ≡ false
      → 1 < system.cpu_count
      → F.lt
          (F.mul (F.ratio 100 1) (F.of_ℕ system.cpu_count))
          (update_metrics F now ticks process previous (some system) interval).cpu_percent
        ≡ false
  unfolding update_metrics
  update_metrics_cpu_bound process none system o nonneg many = nonneg
  update_metrics_cpu_bound process (some previous) system o nonneg many =
      ground (arith, o.lt_irrefl (F.mul (F.ratio 100 1) (F.of_ℕ system.cpu_count)))
