-- ===== src/Main/Closing.antt =====
-- How the program ends.
use application_monitoring.Prelude.{
  ℕ, ℤ, ◌≡◌, refl, sym, subst, Bool, true, false, not, ◌&&◌, ◌||◌, List, ◌∷◌, Option, none,
  if◌then◌else◌, Bool-cases, inl, inr, arith,
}
use application_monitoring.Text.{Bytes, copy_bounded}
use application_monitoring.Double.{Double}
use application_monitoring.Types.{
  NeoConfig, NeoProcess, NeoProtocol, protocol_local, protocol_ssh, protocol_telnet, protocol_ftp,
  protocol_tftp,
}
use application_monitoring.Config.{config_init}
use application_monitoring.Capture.{cpu_start}
use application_monitoring.Log.{LogState, g_log, log_init, log_shutdown}
use application_monitoring.Sort.{Qsort}
use application_monitoring.Targets.{NeoTargetList}
use application_monitoring.Options.{Outcome, ok, failed, exits, Strtod}
use application_monitoring.Options.Resolve.{is_local, config_parse}
use application_monitoring.Options.Bounds.{TimesFit, InBounds}
use application_monitoring.Options.Accepted.{config_parse-InBounds}
use application_monitoring.Main.{Event}
use application_monitoring.Main.Local.{Round, Run, runs, ends, run_local_monitor}
use application_monitoring.Main.Ends.{ended, run_local_monitor-once}
use application_monitoring.Main.Remote.{RemoteRun, remote_runs, remote_ends, remote_overruns}
use application_monitoring.Main.Capturing.{CaptureRun, capture_runs, capture_ends}
use application_monitoring.Main.Program.{
  World, Program, going, exited, overrun, leave, local_result, remote_result, capture_result,
  run_mode, after_parse, after_outcome, main,
}

module _ {D : Type 0} where
  -- No log file is open at the exit.
  abbrev pub Closed : Program D → Type 0
  Closed (going events) = Unit
  Closed (exited code log events) = log.file ≡ none
  Closed (overrun events) = Unit

  Closed-if :
      (b : Bool) (p p' : Program D)
      → Closed p
      → (b ≡ false → Closed p')
      → Closed (if b then p else p')
  Closed-if true p p' h k = h
  Closed-if false p p' h k = k refl

  Closed-exited :
      (p : Program D) {code : ℕ} {log : LogState} {events : List (Event D)}
      → Closed p
      → p ≡ exited code log events
      → log.file ≡ none
  Closed-exited (going events) h e = cc
  Closed-exited (exited code log events) h e = subst Closed e h
  Closed-exited (overrun events) h e = cc

  abbrev pub has_exited : Program D → Bool
  has_exited (going events) = false
  has_exited (exited code log events) = true
  has_exited (overrun events) = false

config_init-InBounds :
    {D : Type 0} (F : Double D) → TimesFit F (config_init F) → InBounds F (config_init F)
unfolding copy_bounded
config_init-InBounds F times = (
  times,
  (omega arith, omega arith, record { fits = omega arith; letters = tt }),
  (omega arith, omega arith, omega arith, omega arith, omega arith, omega arith),
  (
    omega arith,
    omega arith,
    omega arith,
    omega arith,
    omega arith,
    omega arith,
    omega arith,
    omega arith,
  ),
  (inl refl, omega arith),
)

module _ {D : Type 0} (F : Double D) (strtod : Bytes → Strtod D) (decimal : ℤ → Bytes)
    (qsort : Qsort (NeoProcess D)) (world : World D) where
  local-Closed :
      (log : LogState) (r : Run D) → Closed (local_result F strtod decimal qsort world log r)
  unfolding local_result leave log_shutdown
  local-Closed log (runs m) = tt
  local-Closed log (ends code m) = refl

  remote-Closed :
      (log : LogState) (r : RemoteRun D) → Closed (remote_result F strtod decimal qsort world log r)
  unfolding remote_result leave log_shutdown
  remote-Closed log (remote_runs events) = tt
  remote-Closed log (remote_ends code events) = refl
  remote-Closed log (remote_overruns events) = tt

  capture-Closed :
      (log : LogState) (r : CaptureRun D)
      → Closed (capture_result F strtod decimal qsort world log r)
  unfolding capture_result leave log_shutdown
  capture-Closed log (capture_runs c) = tt
  capture-Closed log (capture_ends code c) = refl

  run_mode-Closed :
      (config : NeoConfig D) (log : LogState) (protocol : NeoProtocol)
      → Closed (run_mode F strtod decimal qsort world config log protocol)
  unfolding run_mode leave log_shutdown
  run_mode-Closed config log protocol_ssh = remote-Closed log _
  run_mode-Closed config log protocol_telnet = remote-Closed log _
  run_mode-Closed config log protocol_ftp = refl
  run_mode-Closed config log protocol_tftp = refl
  run_mode-Closed config log protocol_local =
      Closed-if config.capture_enabled _ _ (capture-Closed log _) (λ plain. local-Closed log _)

  log_init-false :
      (opens : Bool) (config : NeoConfig D)
      → not (log_init opens config.log_file config.log_level g_log).1 ≡ true
      → (log_init opens config.log_file config.log_level g_log).0.file ≡ none
  unfolding log_init
  log_init-false opens config h = ground (arith, h)

  after_parse-Closed :
      (config : NeoConfig D) → Closed (after_parse F strtod decimal qsort world config)
  unfolding after_parse log_shutdown
  after_parse-Closed config =
      let opened = (log_init world.opens config.log_file config.log_level g_log).1 in
      elim (Bool-cases (not opened)) [
        | inl shut ↦ rw shut (log_init-false world.opens config shut)
        | inr ready ↦ rw ready (
            Closed-if (not world.sigint_set) _ _ refl (λ one.
              Closed-if (not world.sigterm_set) _ _ refl (λ two.
                Closed-if (config.capture_enabled && not (is_local config.protocol)) _ _ refl
                  (λ three. run_mode-Closed config _ config.protocol))))
      ]

  outcome-Closed :
      (o : Outcome (NeoConfig D × Option NeoTargetList))
      → Closed (after_outcome F strtod decimal qsort world o)
  unfolding after_outcome
  outcome-Closed (ok result) = after_parse-Closed result.0
  outcome-Closed failed = refl
  outcome-Closed (exits code written) = refl

  -- Whenever the program exits, whichever mode it ran and whether that failed, the log has no file open.
  pub main-Closed :
      {code : ℕ} {log : LogState} {events : List (Event D)}
      → main F strtod decimal qsort world ≡ exited code log events
      → log.file ≡ none
  unfolding main
  main-Closed e = Closed-exited _ (outcome-Closed _) e

  local-exited :
      (log : LogState) (r : Run D)
      → ended r ≡ true
      → has_exited (local_result F strtod decimal qsort world log r) ≡ true
  unfolding local_result leave
  local-exited log (runs m) h = cc
  local-exited log (ends code m) h = refl

  exited-if :
      (b : Bool) (p p' : Program D)
      → has_exited p ≡ true
      → (b ≡ false → has_exited p' ≡ true)
      → has_exited (if b then p else p') ≡ true
  exited-if true p p' h k = h
  exited-if false p p' h k = k refl

  exited-else :
      (b : Bool) (p p' : Program D)
      → b ≡ false
      → has_exited p' ≡ true
      → has_exited (if b then p else p') ≡ true
  exited-else true p p' h k = cc
  exited-else false p p' h k = k

  run_mode-exited :
      (config : NeoConfig D) (log : LogState) (protocol : NeoProtocol) (r : Round D)
      (rounds : List (Round D))
      → is_local protocol ≡ true
      → config.capture_enabled ≡ false
      → config.once || config.batch ≡ true
      → world.rounds ≡ r ∷ rounds
      → has_exited (run_mode F strtod decimal qsort world config log protocol) ≡ true
  unfolding run_mode
  run_mode-exited config log protocol_local r rounds h plain short e =
      exited-else config.capture_enabled _ _ plain (
        local-exited log _ (
          subst
            (λ l.
              ended (run_local_monitor F qsort world.tty config cpu_start world.terminal l) ≡ true)
            (sym e)
            (run_local_monitor-once F qsort world.tty config cpu_start world.terminal r rounds
              short)))
  run_mode-exited config log protocol_ssh r rounds h plain short e = cc
  run_mode-exited config log protocol_telnet r rounds h plain short e = cc
  run_mode-exited config log protocol_ftp r rounds h plain short e = cc
  run_mode-exited config log protocol_tftp r rounds h plain short e = cc

  after_parse-exited :
      (config : NeoConfig D) (r : Round D) (rounds : List (Round D))
      → is_local config.protocol ≡ true
      → config.capture_enabled ≡ false
      → config.once || config.batch ≡ true
      → world.rounds ≡ r ∷ rounds
      → has_exited (after_parse F strtod decimal qsort world config) ≡ true
  unfolding after_parse
  after_parse-exited config r rounds h plain short e =
      let (log, opened) = log_init world.opens config.log_file config.log_level g_log in
      exited-if (not opened) _ _ refl (λ ready. exited-if (not world.sigint_set) _ _ refl (λ one.
        exited-if (not world.sigterm_set) _ _ refl (λ two.
          exited-if (config.capture_enabled && not (is_local config.protocol)) _ _ refl
            (λ three. run_mode-exited config log config.protocol r rounds h plain short e))))

  -- A local run that does not capture exits within its first round, if --once, --batch, --csv or --json is
  -- given: whatever else is on the command line, if it is accepted, and whatever the machine answers; given
  -- that the interval and the alert duration that `config_init` sets are in their ranges.
  pub main-exited :
      {config : NeoConfig D} {written : Option NeoTargetList} (r : Round D)
      (rounds : List (Round D))
      → TimesFit F (config_init F)
      → config_parse F strtod world.copied world.room world.load world.save world.getpwnam
          (config_init F)
          world.choices
          world.arguments
        ≡ ok (config, written)
      → is_local config.protocol ≡ true
      → config.capture_enabled ≡ false
      → config.once || config.batch || config.csv || config.json ≡ true
      → world.rounds ≡ r ∷ rounds
      → has_exited (main F strtod decimal qsort world) ≡ true
  unfolding main after_outcome
  main-exited {config} {written} r rounds times e h plain asked f =
      let (t, a, c, n, machine) =
        config_parse-InBounds F strtod world.copied world.room world.load world.save world.getpwnam
          (config_init F) world.choices world.arguments (config_init-InBounds F times) e in
      rw e (after_parse-exited config r rounds h plain (ground (arith, asked, machine)) f)
