-- ===== src/Alert/Dispatch.antt =====
-- What one evaluation reports, and what is done about a report.
use application_monitoring.Prelude.{
  ℤ, ◌≡◌, ◌≢◌, ◌↔◌, ◌⊎◌, Bool, true, false, not, ◌&&◌, ◌||◌, [], arith, Any,
}
use application_monitoring.Text.{Bytes}
use application_monitoring.Double.{Double}
use application_monitoring.Types.{NeoConfig}
use application_monitoring.Alert.{
  NeoAlertState, Mask, evaluate_one, alert_evaluate, alert_state_is_active, Metric, cpu_metric,
  mem_metric, log_alert, notify_desktop, post_webhook, alert_dispatch,
}

-- Is a value at or above its threshold, which is enabled?
abbrev pub exceeds : {D : Type 0} (F : Double D) → D → D → Bool
exceeds F value threshold = not (F.le threshold (F.ratio 0 1)) && not (F.lt value threshold)

module _ {D : Type 0} (F : Double D) (config : NeoConfig D) (cpu_now mem_now : ℤ) where
  -- After an evaluation the state is active exactly when one of the two values is at or above its
  -- enabled threshold now, whatever the state was before.
  pub alert_state_is_active-alert_evaluate :
      (state : NeoAlertState) (cpu_percent mem_percent : D)
      → alert_state_is_active
          (alert_evaluate F config cpu_now mem_now state cpu_percent mem_percent).0
        ≡ exceeds F cpu_percent config.alert_cpu_percent
          || exceeds F mem_percent config.alert_mem_percent
  unfolding alert_evaluate evaluate_one
  alert_state_is_active-alert_evaluate state cpu_percent mem_percent = ground arith

  -- A bit of the mask is clear, or else the value is at or above its enabled threshold, its alert was
  -- not fired in a breach already under way, and the new state remembers it as fired.
  pub alert_evaluate_reports :
      (state : NeoAlertState) (cpu_percent mem_percent : D)
      → let (next, mask) = alert_evaluate F config cpu_now mem_now state cpu_percent mem_percent in
        ((mask.cpu ≡ false)
          ⊎ ((exceeds F cpu_percent config.alert_cpu_percent ≡ true)
              × (state.cpu_breached && state.cpu_fired ≡ false)
              × (next.cpu_fired ≡ true)))
        × ((mask.mem ≡ false)
            ⊎ ((exceeds F mem_percent config.alert_mem_percent ≡ true)
                × (state.mem_breached && state.mem_fired ≡ false)
                × (next.mem_fired ≡ true)))
  unfolding alert_evaluate evaluate_one
  alert_evaluate_reports state cpu_percent mem_percent = ground arith

abbrev pub bit : Metric → Mask → Bool
bit cpu_metric mask = mask.cpu
bit mem_metric mask = mask.mem

module _ {D : Type 0} (config : NeoConfig D) (mask : Mask) where
  -- An alert is logged exactly for the bits that are set; a notification is sent exactly for those
  -- bits and if notifications are on; the webhook is posted to exactly for those bits and if its
  -- URL is not empty, and then to that URL.
  pub alert_dispatch_iff :
      (m : Metric) (url : Bytes)
      → (Any (λ a. a ≡ log_alert m) (alert_dispatch config mask) ↔ (bit m mask ≡ true))
        × (Any (λ a. a ≡ notify_desktop m) (alert_dispatch config mask)
            ↔ ((bit m mask ≡ true) × (config.alert_notify ≡ true)))
        × (Any (λ a. a ≡ post_webhook m url) (alert_dispatch config mask)
            ↔ ((bit m mask ≡ true) × (config.alert_webhook ≢ []) × (url ≡ config.alert_webhook)))
  unfolding alert_dispatch
  alert_dispatch_iff cpu_metric url = ground arith
  alert_dispatch_iff mem_metric url = ground arith
