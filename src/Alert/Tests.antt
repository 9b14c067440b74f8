-- ===== src/Alert/Tests.antt =====
-- Alerts on concrete runs. The numbers are thousandths: 90000 is 90.0.
use application_monitoring.Prelude.{
  ℕ, pos, ◌≡◌, ◌≢◌, refl, ◌↔◌, true, false, not, ◌&&◌, List, [], ◌∷◌, Any,
}
use application_monitoring.Text.{codes}
use application_monitoring.Double.{milli}
use application_monitoring.Types.{NeoConfig}
use application_monitoring.Examples.{start_config}
use application_monitoring.Alert.{
  Mask, evaluate_one, cpu_metric, log_alert, notify_desktop, post_webhook, alert_dispatch,
}
use application_monitoring.Alert.Episodes.{
  Observation, Summary, replay, reports, sustained, replay-Summary, reports_iff_newly_sustained,
}
use application_monitoring.Alert.Dispatch.{bit, alert_dispatch_iff}

abbrev at_time : ℕ → ℕ → Observation ℕ
at_time now value = record { now = pos now; value = value }

-- Over 80.0 from second 10 on: five seconds later the breach is reported.
abbrev hot : List (Observation ℕ)
hot = at_time 12 90000 ∷ at_time 10 85000 ∷ at_time 8 20000 ∷ []

reported_after_five_seconds : reports milli 80000 5000 (at_time 15 95000 ∷ hot) ≡ true
unfolding reports replay evaluate_one
reported_after_five_seconds = refl

replay-Summary_example : Summary milli 80000 5000 (replay milli 80000 5000 hot) hot
replay-Summary_example = replay-Summary milli 80000 5000 hot

reports_iff_newly_sustained_example :
    reports milli 80000 5000 (at_time 15 95000 ∷ hot)
    ≡ sustained milli 80000 5000 (at_time 15 95000 ∷ hot) && not (sustained milli 80000 5000 hot)
reports_iff_newly_sustained_example =
    reports_iff_newly_sustained milli 80000 5000 (at_time 15 95000) hot

abbrev watching : NeoConfig ℕ
watching = record start_config {
  alert_cpu_percent = 80000;
  alert_sustain_seconds = 0;
  alert_webhook = codes "http://hook";
}

abbrev cpu_only : Mask
cpu_only = record { cpu = true; mem = false }

alert_dispatch-iff_example :
    (Any (λ a. a ≡ log_alert cpu_metric) (alert_dispatch watching cpu_only)
      ↔ (bit cpu_metric cpu_only ≡ true))
    × (Any (λ a. a ≡ notify_desktop cpu_metric) (alert_dispatch watching cpu_only)
        ↔ ((bit cpu_metric cpu_only ≡ true) × (watching.alert_notify ≡ true)))
    × (Any
          (λ a. a ≡ post_webhook cpu_metric (codes "http://hook"))
          (alert_dispatch watching cpu_only)
        ↔ ((bit cpu_metric cpu_only ≡ true)
            × (watching.alert_webhook ≢ [])
            × (codes "http://hook" ≡ watching.alert_webhook)))
alert_dispatch-iff_example = alert_dispatch_iff watching cpu_only cpu_metric (codes "http://hook")
