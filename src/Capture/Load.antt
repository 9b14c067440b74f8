-- ===== src/Capture/Load.antt =====
-- The load of the machine is a percentage.
use application_monitoring.Prelude.{
  ◌≡◌, refl, true, false, Option, none, some, arith, Bool-cases, inl, inr, ltb, ◌⊎◌, ◌<◌, ◌&&◌,
}
use application_monitoring.Double.{Double, IsOrdered}
use application_monitoring.Capture.{CpuTimes, CpuState, total_of, idle_of, read_cpu_percent}

module _ {D : Type 0} (F : Double D) where
  -- Whatever /proc/stat holds, and whatever the readings before were, the load that is reported is not
  -- below 0.0 and not above 100.0; given that `double` is ordered and that 100.0 is not below 0.0.
  pub read_cpu_percent_bounded :
      (times : Option CpuTimes) (s : CpuState)
      → IsOrdered F
      → F.lt (F.ratio 100 1) (F.ratio 0 1) ≡ false
      → (F.lt (read_cpu_percent F times s).1 (F.ratio 0 1) ≡ false)
        × (F.lt (F.ratio 100 1) (read_cpu_percent F times s).1 ≡ false)
  unfolding read_cpu_percent
  read_cpu_percent_bounded none s o h = (o.lt_irrefl (F.ratio 0 1), h)
  read_cpu_percent_bounded (some t) s o h =
      ground (arith, o.lt_irrefl (F.ratio 0 1), o.lt_irrefl (F.ratio 100 1))

  -- A reading replaces the counters of the one before, so that the load is that of the time in between;
  -- without a reading before, or where the total did not grow, it is reported as 0.
  pub read_cpu_percent_state :
      (t : CpuTimes) (s : CpuState)
      → IsOrdered F
      → F.lt (F.ratio 100 1) (F.ratio 0 1) ≡ false
      → ((read_cpu_percent F (some t) s).0
          ≡ record { prev_idle = idle_of t; prev_total = total_of t; has_previous = true })
        × (((read_cpu_percent F (some t) s).1 ≡ F.ratio 0 1)
            ⊎ ((s.has_previous ≡ true) × (s.prev_total < total_of t)))
  unfolding read_cpu_percent
  read_cpu_percent_state t s o h = (
    refl,
    elim (Bool-cases (s.has_previous && ltb s.prev_total (total_of t))) [
      | inl e ↦ inr (ground (arith, e))
      | inr e ↦ inl (ground (arith, e, o.lt_irrefl (F.ratio 0 1)))
    ],
  )
