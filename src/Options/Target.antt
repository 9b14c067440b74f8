-- ===== src/Options/Target.antt =====
-- The connection that `config_parse` ends with: the command line, then the saved target.
use application_monitoring.Prelude.{
  ℕ, ◌≡◌, refl, sym, ◌∙◌, ap, subst, Bool, false, not, ◌||◌, ◌&&◌, List, [], ◌∷◌, Option, none,
  some, leb, if◌then◌else◌, length, Bool-cases, inl, inr,
}
use application_monitoring.Text.{Bytes, is_empty}
use application_monitoring.Text.Numbers.{strtoul}
use application_monitoring.Double.{Double}
use application_monitoring.Types.{NeoConfig, max_patterns}
use application_monitoring.Processes.{append_pattern}
use application_monitoring.Targets.{
  NeoTarget, NeoTargetList, target_list_find, target_list_remove, target_list_upsert,
  target_from_config,
}
use application_monitoring.Options.{
  Choice, ok, Explicit, nothing_explicit, ParseState, Strtod, Ensures, Ensures-unless, Ensures-when,
  Ensures-some, Ensures-if, Ensures-option, Ensures->>=, Ensures-map, Ensures-ok, WhenSome,
  WhenSome-if, WhenSome-option, WhenSome-some,
}
use application_monitoring.Options.Resolve.{
  parse_user, targets_command, with_target, apply_target, add_patterns, imply_batch, is_local,
  resolve_user, save_target, resolve, config_parse,
}
use application_monitoring.Options.Connection.{
  or_else, Connection, connection_of, named_target, chosen_target, offered, fallback, preferred,
}
use application_monitoring.Options.Precedence.{is_given, flagged, Follows, apply_options-Follows}

-- A field that was given stays, and another is the target's.
given_or :
    {A : Type 0} (m : Option A) (a b : A)
    → (if is_given m || false then or_else m a else b) ≡ or_else m b
given_or none a b = refl
given_or (some c) a b = refl

-- `with_target` on the connection alone.
abbrev merged : NeoTarget → Explicit → Connection → Connection
merged t explicit c = record {
  protocol = if explicit.protocol_set then c.protocol else (offered t).protocol;
  host = if explicit.host_set then c.host else (offered t).host;
  user = if explicit.user_set then c.user else (offered t).user;
  password = if explicit.password_set then c.password else (offered t).password;
  port = if explicit.port_set then c.port else (offered t).port;
  identity = if explicit.identity_set then c.identity else (offered t).identity;
  remote_bin = if explicit.remote_bin_set then c.remote_bin else (offered t).remote_bin;
  remote_file = if explicit.remote_file_set then c.remote_file else (offered t).remote_file;
}

merged-preferred :
    (t : NeoTarget) (choices : List Choice) (start : Connection)
    → merged t (flagged choices nothing_explicit) (preferred choices start)
      ≡ preferred choices (offered t)
merged-preferred t choices start = simp given_or

module _ {D : Type 0} where
  -- The connection and the names of the target and the file stay.
  abbrev Keeps : NeoConfig D → NeoConfig D → Type 0
  Keeps config config' =
      (connection_of config' ≡ connection_of config)
      × (config'.target_name ≡ config.target_name)
      × (config'.targets_file ≡ config.targets_file)

  targets_command-same :
      (load : Bytes → Option NeoTargetList) (save : NeoTargetList → Bool) (config : NeoConfig D)
      → Ensures (λ c. config ≡ c) (targets_command load save config)
  unfolding targets_command
  targets_command-same load save config =
      Ensures-if _ (config.list_targets || not (is_empty config.delete_target_name)) _ _
        (Ensures-option _ (load config.targets_file) _ _ tt (λ list e.
          Ensures-if _ (is_empty config.delete_target_name) _ _ tt (
            Ensures-option _ (target_list_remove list config.delete_target_name) _ _ tt
              (λ rest f. Ensures-if _ (save rest) _ _ tt tt))))
        refl

  add_patterns-Keeps :
      (copied : Bytes → Bool) (room : ℕ → Bool) (arguments : List Bytes) (config : NeoConfig D)
      → Ensures (Keeps config) (add_patterns copied room arguments config)
  unfolding add_patterns
  add_patterns-Keeps copied room [] config = (refl, refl, refl)
  add_patterns-Keeps copied room (argument ∷ arguments) config =
      elim (Bool-cases (leb max_patterns (length config.patterns))) [
        | inl full ↦ rw (add_patterns, full) tt
        | inr room_left ↦
            rw (add_patterns, room_left)
              (Ensures-some _ (append_pattern (copied argument) room config.patterns argument) _
                (λ patterns g.
                  add_patterns-Keeps copied room arguments (record config { patterns = patterns })))
      ]

  parse_user-Keeps :
      (getpwnam : Bytes → Option ℕ) (config : NeoConfig D) (value : Bytes)
      → WhenSome (Keeps config) (parse_user getpwnam config value)
  unfolding parse_user
  parse_user-Keeps getpwnam config value =
      WhenSome-if _
        (not (strtoul value).erange && (strtoul value).found && is_empty (strtoul value).rest) _ _
        (refl, refl, refl) (WhenSome-option _ (getpwnam value) _ (λ uid. (refl, refl, refl)))

  resolve_user-Keeps :
      (getpwnam : Bytes → Option ℕ) (user_arg : Option Bytes) (config : NeoConfig D)
      → Ensures (Keeps config) (resolve_user getpwnam user_arg config)
  unfolding resolve_user
  resolve_user-Keeps getpwnam none config = (refl, refl, refl)
  resolve_user-Keeps getpwnam (some user_arg) config =
      Ensures-if _ (is_local config.protocol) _ _
        (Ensures-some _ (parse_user getpwnam config user_arg) _ (λ config' e.
          WhenSome-some (Keeps config) (parse_user getpwnam config user_arg)
            (parse_user-Keeps getpwnam config user_arg) e))
        (refl, refl, refl)

  save_target-Keeps :
      (load : Bytes → Option NeoTargetList) (save : NeoTargetList → Bool) (room : ℕ → Bool)
      (config : NeoConfig D)
      → Ensures (λ r. Keeps config r.0) (save_target load save room config)
  unfolding save_target
  save_target-Keeps load save room config =
      Ensures-if _ (is_empty config.save_target_name) _ _ (refl, refl, refl)
        (Ensures-unless _ (is_local config.protocol) _ (λ e.
          Ensures-some _ (load config.targets_file) _ (λ list f.
            Ensures-some _
              (target_list_upsert room list
                (target_from_config config (some config.save_target_name)))
              _ (λ list' g. Ensures-when _ (save list') _ (λ k. (refl, refl, refl))))))

module _ {D : Type 0} (load : Bytes → Option NeoTargetList) (choices : List Choice)
    (start : Connection) where
  -- The connection of the command line, over that of the target that the configuration names.
  abbrev Resolved : NeoConfig D → Type 0
  Resolved config =
      connection_of config ≡ preferred choices (fallback (chosen_target load config) start)

  Keeps-Resolved :
      (config config' : NeoConfig D) → Keeps config config' → Resolved config → Resolved config'
  Keeps-Resolved config config' (e, n, f) h =
      e
      ∙ h
      ∙ ap (λ name. preferred choices (fallback (named_target load name config.targets_file) start))
          (sym n)
      ∙ ap (λ path. preferred choices (fallback (named_target load config'.target_name path) start))
          (sym f)

  apply_target-Resolved :
      (s : ParseState D)
      → connection_of s.config ≡ preferred choices start
      → s.explicit ≡ flagged choices nothing_explicit
      → Ensures Resolved (apply_target load s.explicit s.config)
  unfolding apply_target with_target named_target
  apply_target-Resolved s e f = elim (Bool-cases (is_empty s.config.target_name)) [
    | inl nameless ↦ rw nameless (e ∙ rw nameless refl)
    | inr named ↦ rw named (
        Ensures-some Resolved (load s.config.targets_file) _ (λ list g.
          Ensures-some Resolved (target_list_find list s.config.target_name) _ (λ target k.
            ap (merged target s.explicit) e
            ∙ ap (λ x. merged target x (preferred choices start)) f
            ∙ merged-preferred target choices start
            ∙ rw (named, g, k) refl)))
  ]

module _ {D : Type 0} (F : Double D) (strtod : Bytes → Strtod D) (copied : Bytes → Bool)
    (room : ℕ → Bool) (load : Bytes → Option NeoTargetList) (save : NeoTargetList → Bool)
    (getpwnam : Bytes → Option ℕ) where
  resolve-Resolved :
      (choices : List Choice) (start : Connection) (arguments : List Bytes) (s : ParseState D)
      → connection_of s.config ≡ preferred choices start
      → s.explicit ≡ flagged choices nothing_explicit
      → Ensures
          (λ r. Resolved load choices start r.0)
          (resolve F strtod copied room load save getpwnam arguments s)
  unfolding resolve
  resolve-Resolved choices start arguments s e f =
      let R : NeoConfig D → Type 0 = Resolved load choices start in
      let P : NeoConfig D × Option NeoTargetList → Type 0 = λ r. R r.0 in
      Ensures->>= P (λ c. s.config ≡ c) (targets_command load save s.config) _
        (targets_command-same load save s.config)
        (λ listed h1.
          Ensures->>= P R (apply_target load s.explicit listed) _
            (subst (λ c. Ensures R (apply_target load s.explicit c)) h1
              (apply_target-Resolved load choices start s e f))
            (λ aimed h2.
              Ensures->>= P R (add_patterns copied room arguments aimed) _
                (Ensures-map R (Keeps aimed) _
                  (λ c k. Keeps-Resolved load choices start aimed c k h2)
                  (add_patterns-Keeps copied room arguments aimed))
                (λ narrowed h3.
                  Ensures->>= P R (resolve_user getpwnam s.user_arg (imply_batch narrowed)) _
                    (Ensures-map R (Keeps narrowed) _
                      (λ c k. Keeps-Resolved load choices start narrowed c k h3)
                      (resolve_user-Keeps getpwnam s.user_arg (imply_batch narrowed)))
                    (λ filtered h4.
                      Ensures-map P (λ r. Keeps filtered r.0) _
                        (λ r k. Keeps-Resolved load choices start filtered r.0 k h4)
                        (save_target-Keeps load save room filtered)))))

  -- Whenever the command line is accepted, each field of the connection (protocol, host, user, password,
  -- port, identity, remote binary, remote file) is the last one given on the command line; a field that is
  -- not given is that of the saved target the configuration names, cut to its array, and without a target
  -- the one from before: in whatever order the options come, and whatever other options there are.
  pub config_parse-connection_of :
      (config : NeoConfig D) (choices : List Choice) (arguments : List Bytes)
      {config' : NeoConfig D} {written : Option NeoTargetList}
      → config_parse F strtod copied room load save getpwnam config choices arguments
        ≡ ok (config', written)
      → connection_of config'
        ≡ preferred choices (fallback (chosen_target load config') (connection_of config))
  unfolding config_parse
  config_parse-connection_of config choices arguments e =
      Ensures-ok (λ r. Resolved load choices (connection_of config) r.0) _
        (Ensures->>= (λ r. Resolved load choices (connection_of config) r.0)
          (Follows choices
            (record { config = config; user_arg = none; explicit = nothing_explicit }))
          _ _ (apply_options-Follows F strtod copied room choices _)
          (λ s h. resolve-Resolved choices (connection_of config) arguments s h.0 h.1))
        e
