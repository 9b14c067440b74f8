-- ===== src/Options/Accepted.antt =====
-- Whatever `config_parse` accepts is in bounds.
use application_monitoring.Prelude.{
  ℕ, ◌<◌, ◌≡◌, ◌⊎◌, inl, inr, ◌&&◌, Bool, true, false, not, ◌||◌, List, [], ◌∷◌, Option, none, some,
  leb, if◌then◌else◌, length, arith, Bool-cases,
}
use application_monitoring.Text.Numbers.{strtoul}
use application_monitoring.Text.{Bytes, copy_bounded-lt, is_empty}
use application_monitoring.Double.{Double}
use application_monitoring.Types.{NeoConfig, max_patterns, max_host, max_user, max_remote_path}
use application_monitoring.Processes.{append_pattern}
use application_monitoring.Targets.{
  NeoTarget, NeoTargetList, target_list_find, target_list_remove, target_list_upsert,
  target_from_config,
}
use application_monitoring.Options.{
  Choice, ok, Explicit, ParseState, Strtod, Ensures, Ensures-unless, Ensures-when, Ensures-if,
  Ensures-option, Ensures-some, Ensures->>=, Ensures-ok, WhenSome, WhenSome-if, WhenSome-option,
  WhenSome-some,
}
use application_monitoring.Options.Resolve.{
  parse_user, targets_command, with_target, apply_target, add_patterns, imply_batch, is_local,
  resolve_user, save_target, resolve, config_parse,
}
use application_monitoring.Options.Bounds.{InBounds, append_pattern-le, apply_options-InBounds}

either_fits :
    (given : Bool) (a b : Bytes) (size : ℕ)
    → length a < size
    → length b < size
    → length (if given then a else b) < size
either_fits true a b size h k = h
either_fits false a b size h k = k

machine :
    (csv json batch : Bool) → (csv || json ≡ false) ⊎ ((if csv || json then true else batch) ≡ true)
machine csv json batch = ground arith

module _ {D : Type 0} (F : Double D) where
  targets_command-InBounds :
      (load : Bytes → Option NeoTargetList) (save : NeoTargetList → Bool) (config : NeoConfig D)
      → InBounds F config
      → Ensures (InBounds F) (targets_command load save config)
  unfolding targets_command
  targets_command-InBounds load save config h =
      Ensures-if _ (config.list_targets || not (is_empty config.delete_target_name)) _ _
        (Ensures-option _ (load config.targets_file) _ _ tt (λ list e.
          Ensures-if _ (is_empty config.delete_target_name) _ _ tt (
            Ensures-option _ (target_list_remove list config.delete_target_name) _ _ tt
              (λ rest f. Ensures-if _ (save rest) _ _ tt tt))))
        h

  with_target-InBounds :
      (target : NeoTarget) (explicit : Explicit) (config : NeoConfig D)
      → InBounds F config
      → InBounds F (with_target target explicit config)
  unfolding with_target
  with_target-InBounds target explicit config
        (times, arrays, (host, user, password, identity, binary, file), names, b) =
      (
        times,
        arrays,
        (
          either_fits explicit.host_set _ _ max_host host
              (copy_bounded-lt max_host target.host (omega arith)),
          either_fits explicit.user_set _ _ max_user user
              (copy_bounded-lt max_user target.user (omega arith)),
          either_fits explicit.password_set _ _ max_user password
              (copy_bounded-lt max_user target.password (omega arith)),
          either_fits explicit.identity_set _ _ max_remote_path identity
              (copy_bounded-lt max_remote_path target.identity (omega arith)),
          either_fits explicit.remote_bin_set _ _ max_remote_path binary
              (copy_bounded-lt max_remote_path target.remote_bin (omega arith)),
          either_fits explicit.remote_file_set _ _ max_remote_path file
              (copy_bounded-lt max_remote_path target.remote_file (omega arith)),
        ),
        names,
        b,
      )

  apply_target-InBounds :
      (load : Bytes → Option NeoTargetList) (explicit : Explicit) (config : NeoConfig D)
      → InBounds F config
      → Ensures (InBounds F) (apply_target load explicit config)
  unfolding apply_target
  apply_target-InBounds load explicit config h = Ensures-if _ (is_empty config.target_name) _ _ h (
      Ensures-some _ (load config.targets_file) _ (λ list e.
        Ensures-some _ (target_list_find list config.target_name) _
          (λ target f. with_target-InBounds target explicit config h)))

  add_patterns-InBounds :
      (copied : Bytes → Bool) (room : ℕ → Bool) (arguments : List Bytes) (config : NeoConfig D)
      → InBounds F config
      → Ensures (InBounds F) (add_patterns copied room arguments config)
  unfolding add_patterns
  add_patterns-InBounds copied room [] config h = h
  add_patterns-InBounds copied room (argument ∷ arguments) config
        (times, (p, e, f), conn, names, b) =
      elim (Bool-cases (leb max_patterns (length config.patterns))) [
        | inl full ↦ rw (add_patterns, full) tt
        | inr room_left ↦
            rw (add_patterns, room_left)
              (Ensures-some _ (append_pattern (copied argument) room config.patterns argument) _
                (λ patterns g.
                  add_patterns-InBounds copied room arguments
                    (record config { patterns = patterns })
                    (
                      times,
                      (append_pattern-le _ room config.patterns argument room_left g, e, f),
                      conn,
                      names,
                      b,
                    )))
      ]

  imply_batch-InBounds :
      (config : NeoConfig D) → InBounds F config → InBounds F (imply_batch config)
  imply_batch-InBounds config (times, arrays, conn, names, (b, user)) =
      (times, arrays, conn, names, (machine config.csv config.json config.batch, user))

  parse_user-InBounds :
      (getpwnam : Bytes → Option ℕ) (config : NeoConfig D) (value : Bytes)
      → InBounds F config
      → WhenSome (InBounds F) (parse_user getpwnam config value)
  unfolding parse_user
  parse_user-InBounds getpwnam config value (times, arrays, conn, names, (b, user)) =
      WhenSome-if _
        (not (strtoul value).erange && (strtoul value).found && is_empty (strtoul value).rest) _ _
        (times, arrays, conn, names, (b, user))
        (WhenSome-option _ (getpwnam value) _
          (λ uid. (times, arrays, conn, names, (b, copy_bounded-lt max_user value (omega arith)))))

  resolve_user-InBounds :
      (getpwnam : Bytes → Option ℕ) (user_arg : Option Bytes) (config : NeoConfig D)
      → InBounds F config
      → Ensures (InBounds F) (resolve_user getpwnam user_arg config)
  unfolding resolve_user
  resolve_user-InBounds getpwnam none config h = h
  resolve_user-InBounds getpwnam (some user_arg) config h =
      Ensures-if _ (is_local config.protocol) _ _
        (Ensures-some _ (parse_user getpwnam config user_arg) _
          (λ config' e. WhenSome-some _ _ (parse_user-InBounds getpwnam config user_arg h) e))
        h

  save_target-InBounds :
      (load : Bytes → Option NeoTargetList) (save : NeoTargetList → Bool) (room : ℕ → Bool)
      (config : NeoConfig D)
      → InBounds F config
      → Ensures (λ r. InBounds F r.0) (save_target load save room config)
  unfolding save_target
  save_target-InBounds load save room config h =
      Ensures-if _ (is_empty config.save_target_name) _ _ h (
        Ensures-unless _ (is_local config.protocol) _ (λ e.
          Ensures-some _ (load config.targets_file) _ (λ list f.
            Ensures-some _
              (target_list_upsert room list
                (target_from_config config (some config.save_target_name)))
              _ (λ list' g. Ensures-when _ (save list') _ (λ k. h)))))

module _ {D : Type 0} (F : Double D) (strtod : Bytes → Strtod D) (copied : Bytes → Bool)
    (room : ℕ → Bool) (load : Bytes → Option NeoTargetList) (save : NeoTargetList → Bool)
    (getpwnam : Bytes → Option ℕ) where
  resolve-InBounds :
      (arguments : List Bytes) (s : ParseState D)
      → InBounds F s.config
      → Ensures (λ r. InBounds F r.0) (resolve F strtod copied room load save getpwnam arguments s)
  unfolding resolve
  resolve-InBounds arguments s h =
      let P : NeoConfig D × Option NeoTargetList → Type 0 = λ r. InBounds F r.0 in
      Ensures->>= P (InBounds F) (targets_command load save s.config) _
        (targets_command-InBounds F load save s.config h)
        (λ listed h1.
          Ensures->>= P (InBounds F) (apply_target load s.explicit listed) _
            (apply_target-InBounds F load s.explicit listed h1)
            (λ aimed h2.
              Ensures->>= P (InBounds F) (add_patterns copied room arguments aimed) _
                (add_patterns-InBounds F copied room arguments aimed h2)
                (λ narrowed h3.
                  Ensures->>= P (InBounds F)
                    (resolve_user getpwnam s.user_arg (imply_batch narrowed)) _
                    (resolve_user-InBounds F getpwnam s.user_arg (imply_batch narrowed)
                      (imply_batch-InBounds F narrowed h3))
                    (save_target-InBounds F load save room))))

  -- From a configuration in bounds, as `config_init` gives it, every configuration that is accepted is in
  -- bounds: the interval is not outside of its range, every text fits its array with its NUL, the name
  -- of the account asked for included, there are
  -- no more patterns and states than fit, and CSV and JSON output is never interactive; whatever the
  -- options and arguments, the file of targets and the accounts are.
  pub config_parse-InBounds :
      (config : NeoConfig D) (choices : List Choice) (arguments : List Bytes)
      {config' : NeoConfig D} {written : Option NeoTargetList}
      → InBounds F config
      → config_parse F strtod copied room load save getpwnam config choices arguments
        ≡ ok (config', written)
      → InBounds F config'
  unfolding config_parse
  config_parse-InBounds config choices arguments h e =
      Ensures-ok (λ r. InBounds F r.0) _
        (Ensures->>= (λ r. InBounds F r.0) (λ s. InBounds F s.config) _ _
          (apply_options-InBounds F strtod copied room choices _ h) (resolve-InBounds arguments))
        e
