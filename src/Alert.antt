-- ===== src/Alert.antt =====
-- src/monitoring_alert.c: threshold alerts that fire once a breach has lasted long enough.
-- `time(NULL)` is an argument wherever the code reads the clock.
pub mod Episodes
pub mod Dispatch
mod Tests
use application_monitoring.Prelude.{
  ℕ, ℤ, pos, Bool, true, false, not, ◌&&◌, ◌||◌, List, [], ◌∷◌, ◌++◌, if◌then◌else◌, ◌==◌,
}
use application_monitoring.Text.{Bytes, is_empty}
use application_monitoring.Double.{Double}
use application_monitoring.Types.{NeoConfig}

-- The three fields that `evaluate_one` is given pointers to.
pub record Check : Type 0 where
  pub breached : Bool
  pub breach_start : ℤ
  pub fired : Bool

pub record NeoAlertState : Type 0 where
  pub cpu_breached : Bool
  pub cpu_breach_start : ℤ
  pub cpu_fired : Bool
  pub mem_breached : Bool
  pub mem_breach_start : ℤ
  pub mem_fired : Bool

abbrev pub alert_state_init : NeoAlertState
alert_state_init = record {
  cpu_breached = false;
  cpu_breach_start = pos 0;
  cpu_fired = false;
  mem_breached = false;
  mem_breach_start = pos 0;
  mem_fired = false;
}

-- The bits NEO_ALERT_CPU and NEO_ALERT_MEM of a mask.
pub record Mask : Type 0 where
  pub cpu : Bool
  pub mem : Bool

abbrev pub no_alert : Mask
no_alert = record { cpu = false; mem = false }

module _ {D : Type 0} (F : Double D) where
  -- The first round over the threshold starts the breach.
  begin_breach : ℤ → Check → Check
  begin_breach now c =
      if c.breached then c else record { breached = true; breach_start = now; fired = false }

  -- What follows the start: fire once, when the breach has lasted for `sustain_seconds`.
  fire_when_sustained : ℤ → D → Check → Check × Bool
  fire_when_sustained now sustain_seconds c =
      if c.fired
      then (c, false)
      else if F.le sustain_seconds (F.difftime now c.breach_start)
      then (record c { fired = true }, true)
      else (c, false)

  unfoldable pub evaluate_one : ℤ → D → D → D → Check → Check × Bool
  unfolding begin_breach fire_when_sustained
  evaluate_one now value threshold sustain_seconds c =
      if F.le threshold (F.ratio 0 1)
      then (record c { breached = false; fired = false }, false)
      else if F.lt value threshold
      then (record c { breached = false; fired = false }, false)
      else fire_when_sustained now sustain_seconds (begin_breach now c)

  -- `cpu_now` and `mem_now` are the two readings of the clock.
  unfoldable pub alert_evaluate : NeoConfig D → ℤ → ℤ → NeoAlertState → D → D → NeoAlertState × Mask
  alert_evaluate config cpu_now mem_now state cpu_percent mem_percent =
      let sustain =
        if F.lt (F.ratio 0 1) config.alert_sustain_seconds
        then config.alert_sustain_seconds
        else F.ratio 0 1 in
      let (c, cpu) = evaluate_one cpu_now cpu_percent config.alert_cpu_percent sustain (record {
        breached = state.cpu_breached;
        breach_start = state.cpu_breach_start;
        fired = state.cpu_fired;
      }) in
      let (m, mem) = evaluate_one mem_now mem_percent config.alert_mem_percent sustain (record {
        breached = state.mem_breached;
        breach_start = state.mem_breach_start;
        fired = state.mem_fired;
      }) in
      (
        record {
          cpu_breached = c.breached;
          cpu_breach_start = c.breach_start;
          cpu_fired = c.fired;
          mem_breached = m.breached;
          mem_breach_start = m.breach_start;
          mem_fired = m.fired;
        },
        record { cpu = cpu; mem = mem },
      )

abbrev pub alert_state_is_active : NeoAlertState → Bool
alert_state_is_active state = state.cpu_breached || state.mem_breached

pub data Metric : Type 0 where
  cpu_metric mem_metric : Metric

-- What `alert_dispatch` does, in order. The texts (`title`, `body`, `payload`) are built by
-- `snprintf` and `strftime` from the metric and the values; they are not modelled.
pub data Action : Type 0 where
  log_alert : Metric → Action
  notify_desktop : Metric → Action
  post_webhook : Metric → Bytes → Action

module _ {D : Type 0} where
  dispatch_one : NeoConfig D → Metric → List Action
  dispatch_one config metric =
      log_alert metric
      ∷ ((if config.alert_notify then notify_desktop metric ∷ [] else [])
          ++ (if is_empty config.alert_webhook
              then []
              else post_webhook metric config.alert_webhook ∷ []))

  unfoldable pub alert_dispatch : NeoConfig D → Mask → List Action
  unfolding dispatch_one
  alert_dispatch config fired_mask =
      if not fired_mask.cpu && not fired_mask.mem
      then []
      else (if fired_mask.cpu then dispatch_one config cpu_metric else [])
        ++ (if fired_mask.mem then dispatch_one config mem_metric else [])
