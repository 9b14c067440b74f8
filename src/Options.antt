-- ===== src/Options.antt =====
-- src/monitoring_services_core.c: the command line, `config_parse`. `getopt_long` gives a sequence of
-- options with their arguments, and the arguments that are left; its table of long names is the type
-- `Choice`, with a constructor for each case of the switch.
pub mod Accepted
pub mod Apply
pub mod Bounds
pub mod Connection
pub mod Precedence
pub mod Resolve
pub mod Target
mod Tests
use application_monitoring.Prelude.{
  ◌≡◌, refl, subst, arith, if◌then◌else◌, ℕ, Bool, true, false, List, Option, none, some,
}
use application_monitoring.Text.{Bytes}
use application_monitoring.Types.{NeoConfig}
use application_monitoring.Targets.{NeoTargetList}

pub data Choice : Type 0 where
  opt_interval : Bytes → Choice
  opt_long_args : Choice
  opt_exclude : Bytes → Choice
  opt_pid : Bytes → Choice
  opt_ppid : Bytes → Choice
  opt_user : Bytes → Choice
  opt_state : Bytes → Choice
  opt_limit : Bytes → Choice
  opt_once : Choice
  opt_batch : Choice
  opt_reverse : Choice
  opt_cpu : Choice
  opt_mem : Choice
  opt_cpu_threshold : Bytes → Choice
  opt_ram_mb : Bytes → Choice
  opt_ram_percent : Bytes → Choice
  opt_swap : Choice
  opt_io : Choice
  opt_threads : Choice
  opt_start_time : Choice
  opt_elapsed : Choice
  opt_sort : Bytes → Choice
  opt_csv : Choice
  opt_json : Choice
  opt_no_color : Choice
  opt_protocol : Bytes → Choice
  opt_host : Bytes → Choice
  opt_port : Bytes → Choice
  opt_identity : Bytes → Choice
  opt_password : Bytes → Choice
  opt_remote_bin : Bytes → Choice
  opt_local_file : Bytes → Choice
  opt_remote_file : Bytes → Choice
  opt_capture : Option Bytes → Choice
  opt_capture_output : Bytes → Choice
  opt_log_file : Bytes → Choice
  opt_log_level : Bytes → Choice
  opt_alert_cpu : Bytes → Choice
  opt_alert_mem : Bytes → Choice
  opt_alert_duration : Bytes → Choice
  opt_alert_notify : Choice
  opt_alert_webhook : Bytes → Choice
  opt_target : Bytes → Choice
  opt_save_target : Bytes → Choice
  opt_delete_target : Bytes → Choice
  opt_list_targets : Choice
  opt_targets_file : Bytes → Choice
  opt_help : Choice
  opt_version : Choice
  opt_unknown : Choice

-- `failed` is a return value of -1, and `exits` a call of `exit` with that code, after the list of targets
-- that it carries was written, if one was.
pub data Outcome (A : Type 0) : Type 0 where
  ok : A → Outcome A
  failed : Outcome A
  exits : ℕ → Option NeoTargetList → Outcome A

infixl 5 ◌>>=◌
abbrev pub ◌>>=◌ : {A B : Type 0} → Outcome A → (A → Outcome B) → Outcome B
ok a >>= f = f a
failed >>= f = failed
exits n written >>= f = exits n written

-- A property of the result, if there is one.
abbrev pub Ensures : {A : Type 0} → (A → Type 0) → Outcome A → Type 0
Ensures P (ok a) = P a
Ensures P failed = Unit
Ensures P (exits n written) = Unit

module _ {A : Type 0} (P : A → Type 0) where
  pub Ensures-unless :
      (b : Bool) (r : Outcome A) → (b ≡ false → Ensures P r) → Ensures P (if b then failed else r)
  Ensures-unless true r h = tt
  Ensures-unless false r h = h refl

  pub Ensures-when :
      (b : Bool) (r : Outcome A) → (b ≡ true → Ensures P r) → Ensures P (if b then r else failed)
  Ensures-when true r h = h refl
  Ensures-when false r h = tt

  pub Ensures-some :
      {B : Type 0} (m : Option B) (f : B → Outcome A)
      → ((b : B) → m ≡ some b → Ensures P (f b))
      → Ensures P (elim m [ none ↦ failed | some b ↦ f b ])
  Ensures-some none f h = tt
  Ensures-some (some b) f h = h b refl

  pub Ensures-option :
      {B : Type 0} (m : Option B) (r : Outcome A) (f : B → Outcome A)
      → Ensures P r
      → ((b : B) → m ≡ some b → Ensures P (f b))
      → Ensures P (elim m [ none ↦ r | some b ↦ f b ])
  Ensures-option none r f g h = g
  Ensures-option (some b) r f g h = h b refl

  pub Ensures-if :
      (b : Bool) (r r' : Outcome A) → Ensures P r → Ensures P r' → Ensures P (if b then r else r')
  Ensures-if true r r' h k = h
  Ensures-if false r r' h k = k

  pub Ensures->>= :
      {B : Type 0} (Q : B → Type 0) (m : Outcome B) (f : B → Outcome A)
      → Ensures Q m
      → ((b : B) → Q b → Ensures P (f b))
      → Ensures P (m >>= f)
  Ensures->>= Q (ok b) f h k = k b h
  Ensures->>= Q failed f h k = tt
  Ensures->>= Q (exits n written) f h k = tt

  pub Ensures-map :
      (Q : A → Type 0) (m : Outcome A) → ((a : A) → Q a → P a) → Ensures Q m → Ensures P m
  Ensures-map Q (ok a) f h = f a h
  Ensures-map Q failed f h = tt
  Ensures-map Q (exits n written) f h = tt

  pub Ensures-ok : (m : Outcome A) {a : A} → Ensures P m → m ≡ ok a → P a
  Ensures-ok (ok b) {a} h e = subst P (ground (arith, e)) h
  Ensures-ok failed h e = cc
  Ensures-ok (exits n written) h e = cc

-- A property of what there is.
abbrev pub WhenSome : {A : Type 0} → (A → Type 0) → Option A → Type 0
WhenSome P none = Unit
WhenSome P (some a) = P a

module _ {A : Type 0} (P : A → Type 0) where
  pub WhenSome-if :
      (b : Bool) (m m' : Option A) → WhenSome P m → WhenSome P m' → WhenSome P (if b then m else m')
  WhenSome-if true m m' h k = h
  WhenSome-if false m m' h k = k

  pub WhenSome-option :
      {B : Type 0} (m : Option B) (f : B → A)
      → ((b : B) → P (f b))
      → WhenSome P (elim m [ none ↦ none | some b ↦ some (f b) ])
  WhenSome-option none f h = tt
  WhenSome-option (some b) f h = h b

  pub WhenSome-some : (m : Option A) {a : A} → WhenSome P m → m ≡ some a → P a
  WhenSome-some none h e = cc
  WhenSome-some (some b) {a} h e = subst P (ground (arith, e)) h

-- The flags of the connection fields that were given on the command line.
pub record Explicit : Type 0 where
  pub protocol_set : Bool
  pub host_set : Bool
  pub user_set : Bool
  pub password_set : Bool
  pub port_set : Bool
  pub identity_set : Bool
  pub remote_bin_set : Bool
  pub remote_file_set : Bool

abbrev pub nothing_explicit : Explicit
nothing_explicit = record {
  protocol_set = false;
  host_set = false;
  user_set = false;
  password_set = false;
  port_set = false;
  identity_set = false;
  remote_bin_set = false;
  remote_file_set = false;
}

-- The local variables of `config_parse` with the configuration.
pub record ParseState (D : Type 0) : Type 0 where
  pub config : NeoConfig D
  pub user_arg : Option Bytes
  pub explicit : Explicit

-- What `strtod` gives: the value, what follows it, and whether there was a number.
pub record Strtod (D : Type 0) : Type 0 where
  pub value : D
  pub rest : Bytes
  pub found : Bool
