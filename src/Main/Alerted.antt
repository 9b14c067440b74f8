-- ===== src/Main/Alerted.antt =====
-- The alerts and the failures among the events of the local monitor, and what its variables tell of them.
use application_monitoring.Prelude.{
  ℕ, ℤ, ◌≡◌, ◌⊎◌, refl, ap, Bool, true, false, ◌||◌, List, [], ◌∷◌, ◌++◌, map, if◌then◌else◌,
  Bool-cases, inl, inr, arith,
}
use application_monitoring.Double.{Double}
use application_monitoring.Types.{NeoConfig, NeoProcess, NeoSystemInfo}
use application_monitoring.Alert.{
  Check, Mask, NeoAlertState, evaluate_one, alert_evaluate, alert_dispatch,
}
use application_monitoring.Main.{
  Event, json_output, csv_output, table_output, acted, logged, slept, wrote_csv, wrote_html, output,
  pause, refresh_system_failed, refresh_scan_failed, Message, remote_started, remote_failed,
  deploy_started, deploy_failed, deploy_finished, capture_started, capture_system_failed,
  capture_scan_failed, capture_stopped, line, exit_success, neo_exit_alert,
}
use application_monitoring.Main.Local.{Monitor, happened, exit_code}

-- Is a breach going on that an alert was raised for?
abbrev pub reported : NeoAlertState → Bool
reported state = state.cpu_fired || state.mem_fired

abbrev is_failure : Message → Bool
is_failure refresh_system_failed = true
is_failure refresh_scan_failed = true
is_failure remote_started = false
is_failure (remote_failed reason) = false
is_failure deploy_started = false
is_failure (deploy_failed reason) = false
is_failure deploy_finished = false
is_failure capture_started = false
is_failure capture_system_failed = false
is_failure capture_scan_failed = false
is_failure (capture_stopped count) = false
is_failure (line text) = false

module _ {D : Type 0} where
  -- Was something done about an alert?
  unfoldable pub alerted : List (Event D) → Bool
  alerted [] = false
  alerted (acted action ∷ events) = true
  alerted (json_output config system items ∷ events) = alerted events
  alerted (csv_output config items ∷ events) = alerted events
  alerted (table_output config system count items ∷ events) = alerted events
  alerted (logged level message ∷ events) = alerted events
  alerted (slept seconds ∷ events) = alerted events
  alerted (wrote_csv path samples ∷ events) = alerted events
  alerted (wrote_html path samples ∷ events) = alerted events

  -- Was a failure to read /proc logged?
  unfoldable pub failed : List (Event D) → Bool
  failed [] = false
  failed (logged level message ∷ events) = is_failure message || failed events
  failed (acted action ∷ events) = failed events
  failed (json_output config system items ∷ events) = failed events
  failed (csv_output config items ∷ events) = failed events
  failed (table_output config system count items ∷ events) = failed events
  failed (slept seconds ∷ events) = failed events
  failed (wrote_csv path samples ∷ events) = failed events
  failed (wrote_html path samples ∷ events) = failed events

  pub alerted-append : (xs ys : List (Event D)) → alerted (xs ++ ys) ≡ alerted xs || alerted ys
  unfolding alerted
  alerted-append [] ys = refl
  alerted-append (acted action ∷ xs) ys = refl
  alerted-append (json_output config system items ∷ xs) ys = alerted-append xs ys
  alerted-append (csv_output config items ∷ xs) ys = alerted-append xs ys
  alerted-append (table_output config system count items ∷ xs) ys = alerted-append xs ys
  alerted-append (logged level message ∷ xs) ys = alerted-append xs ys
  alerted-append (slept seconds ∷ xs) ys = alerted-append xs ys
  alerted-append (wrote_csv path samples ∷ xs) ys = alerted-append xs ys
  alerted-append (wrote_html path samples ∷ xs) ys = alerted-append xs ys

  pub alerted-output :
      (config : NeoConfig D) (system : NeoSystemInfo) (items : List (NeoProcess D))
      → alerted (output config system items ∷ []) ≡ false
  unfolding alerted
  alerted-output config system items = elim (Bool-cases config.json) [
    | inl e ↦ rw e refl
    | inr e ↦ elim (Bool-cases config.csv) [ inl f ↦ rw (e, f) refl | inr f ↦ rw (e, f) refl ]
  ]

  pub alerted-pause : (F : Double D) (config : NeoConfig D) → alerted (pause F config ∷ []) ≡ false
  unfolding alerted
  alerted-pause F config = refl

  pub alerted-dispatch :
      (config : NeoConfig D) (fired : Mask)
      → fired.cpu || fired.mem ≡ true
      → alerted (map acted (alert_dispatch config fired)) ≡ true
  unfolding alerted alert_dispatch
  alerted-dispatch config fired h = elim (Bool-cases fired.cpu) [
    | inl e ↦ rw e refl
    | inr e ↦ let f : fired.mem ≡ true = ground (arith, e, h) in rw (e, f) refl
  ]

  -- The variable says what happened, and nothing that was reported is forgotten.
  abbrev pub Told : Monitor D → Type 0
  Told m =
      (m.alert_ever_fired ≡ alerted m.events)
      × ((reported m.alert_state ≡ false) ⊎ (m.alert_ever_fired ≡ true))

  abbrev pub CodeTold : ℕ → Monitor D → Type 0
  CodeTold code m =
      (code ≡ (if alerted m.events then neo_exit_alert else exit_success))
      × ((reported m.alert_state ≡ false) ⊎ (code ≡ neo_exit_alert))

  pub happened-Told :
      (m : Monitor D) (events : List (Event D))
      → alerted events ≡ false
      → Told m
      → Told (happened m events)
  happened-Told m events h (k, kept) = (ground (arith, h, k, alerted-append m.events events), kept)

  pub exit_code-CodeTold : (m : Monitor D) → Told m → CodeTold (exit_code m) m
  exit_code-CodeTold m (h, kept) = (
    ap (λ b. if b then neo_exit_alert else exit_success) h,
    elim kept [
      | inl none ↦ inl none
      | inr ever ↦ inr (ap (λ b. if b then neo_exit_alert else exit_success) ever)
    ],
  )

module _ {D : Type 0} (F : Double D) where
  evaluate_one-fired :
      (now : ℤ) (value threshold sustain_seconds : D) (c : Check)
      → let r = evaluate_one F now value threshold sustain_seconds c in
        (r.0.fired ≡ false) ⊎ (c.fired ≡ true) ⊎ (r.1 ≡ true)
  unfolding evaluate_one
  evaluate_one-fired now value threshold sustain_seconds c = ground arith

  pub still_kept :
      {ever before after raised : Bool}
      → raised ≡ false
      → (before ≡ false) ⊎ (ever ≡ true)
      → (after ≡ false) ⊎ (before ≡ true) ⊎ (raised ≡ true)
      → (after ≡ false) ⊎ (ever ≡ true)
  still_kept h k l = ground (arith, h, k, l)

  -- What is reported after an evaluation was so before it, or is raised by it.
  pub alert_evaluate-reported :
      (config : NeoConfig D) (cpu_now mem_now : ℤ) (state : NeoAlertState)
      (cpu_percent mem_percent : D)
      → let r = alert_evaluate F config cpu_now mem_now state cpu_percent mem_percent in
        (reported r.0 ≡ false) ⊎ (reported state ≡ true) ⊎ (r.1.cpu || r.1.mem ≡ true)
  unfolding alert_evaluate
  alert_evaluate-reported config cpu_now mem_now state cpu_percent mem_percent =
      let sustain =
        if F.lt (F.ratio 0 1) config.alert_sustain_seconds
        then config.alert_sustain_seconds
        else F.ratio 0 1 in
      let cpu = evaluate_one-fired cpu_now cpu_percent config.alert_cpu_percent sustain (record {
        breached = state.cpu_breached;
        breach_start = state.cpu_breach_start;
        fired = state.cpu_fired;
      }) in
      let mem = evaluate_one-fired mem_now mem_percent config.alert_mem_percent sustain (record {
        breached = state.mem_breached;
        breach_start = state.mem_breach_start;
        fired = state.mem_fired;
      }) in
      ground (arith, cpu, mem)
