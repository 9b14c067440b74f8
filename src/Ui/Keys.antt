-- ===== src/Ui/Keys.antt =====
-- What the interactive keys can and cannot do to the configuration.
use application_monitoring.Prelude.{
  ℕ, ◌≡◌, true, false, not, ◌||◌, List, [], ◌∷◌, arith, ◌==◌, Bool-cases, inl, inr,
}
use application_monitoring.Double.{Double, IsOrdered}
use application_monitoring.Types.{NeoConfig}
use application_monitoring.Config.{min_interval, max_interval}
use application_monitoring.Ui.{longer_interval, shorter_interval, ui_handle_key}

-- What IEEE 754 promises of `* 2.0` and `/ 2.0` at numbers from 0.0 on, and of the constants.
pub record IsScaling {D : Type 0} (F : Double D) : Type 0 where
  pub doubling_grows : (a : D) → F.le (F.ratio 0 1) a ≡ true → F.le a (F.mul a (F.ratio 2 1)) ≡ true
  pub halving_shrinks :
      (a : D) → F.le (F.ratio 0 1) a ≡ true → F.le (F.div a (F.ratio 2 1)) a ≡ true
  pub zero_le_min : F.le (F.ratio 0 1) (min_interval F) ≡ true
  pub min_le_max : F.le (min_interval F) (max_interval F) ≡ true

module _ {D : Type 0} (F : Double D) where
  -- The bounds that `config_parse` puts on the refresh interval.
  abbrev pub InRange : D → Type 0
  InRange interval =
      (F.le (min_interval F) interval ≡ true) × (F.le interval (max_interval F) ≡ true)

  -- Any sequence of keys.
  pub press : NeoConfig D → List ℕ → NeoConfig D
  press config [] = config
  press config (key ∷ keys) = press (ui_handle_key F config key).config keys

module _ {D : Type 0} (F : Double D) (o : IsOrdered F) (s : IsScaling F) where
  le_of_not_lt :
      (a b : D) → F.is_nan a ≡ false → F.is_nan b ≡ false → F.lt b a ≡ false → F.le a b ≡ true
  le_of_not_lt a b na nb h = ground (arith, o.le_iff_not_lt a b na nb)

  longer_interval-InRange : (a : D) → InRange F a → InRange F (longer_interval F a)
  unfolding longer_interval
  longer_interval-InRange a (low, high) = elim (Bool-cases (F.lt (max_interval F) doubled)) [
    | inl e ↦ rw e (s.min_le_max, max_le_max)
    | inr e ↦ rw e (
      o.le_trans _ _ _ low grows,
      le_of_not_lt doubled _ (o.le_number _ _ grows).1 (o.ratio_number 60 1) e,
    )
  ]
    where
      doubled : D
      doubled = F.mul a (F.ratio 2 1)

      grows : F.le a doubled ≡ true
      grows = s.doubling_grows a (o.le_trans _ _ _ s.zero_le_min low)

      max_le_max : F.le (max_interval F) (max_interval F) ≡ true
      max_le_max =
          le_of_not_lt _ _ (o.ratio_number 60 1) (o.ratio_number 60 1)
            (o.lt_irrefl (max_interval F))

  shorter_interval-InRange : (a : D) → InRange F a → InRange F (shorter_interval F a)
  unfolding shorter_interval
  shorter_interval-InRange a (low, high) = elim (Bool-cases (F.lt halved (min_interval F))) [
    | inl e ↦ rw e (min_le_min, s.min_le_max)
    | inr e ↦ rw e (
      le_of_not_lt _ halved (o.ratio_number 1 10) (o.le_number _ _ shrinks).0 e,
      o.le_trans _ _ _ shrinks high,
    )
  ]
    where
      halved : D
      halved = F.div a (F.ratio 2 1)

      shrinks : F.le halved a ≡ true
      shrinks = s.halving_shrinks a (o.le_trans _ _ _ s.zero_le_min low)

      min_le_min : F.le (min_interval F) (min_interval F) ≡ true
      min_le_min =
          le_of_not_lt _ _ (o.ratio_number 1 10) (o.ratio_number 1 10)
            (o.lt_irrefl (min_interval F))

  ui_handle_key-InRange :
      (config : NeoConfig D) (key : ℕ)
      → InRange F config.interval
      → InRange F (ui_handle_key F config key).config.interval
  unfolding ui_handle_key
  ui_handle_key-InRange config key h =
      ground (
        arith,
        longer_interval-InRange config.interval h,
        shorter_interval-InRange config.interval h,
      )

  -- No sequence of keys moves the refresh interval out of the range from MIN_INTERVAL to
  -- MAX_INTERVAL, once it lies in there; given that `double` is ordered and scales as IEEE 754 says.
  pub press-InRange :
      (config : NeoConfig D) (keys : List ℕ)
      → InRange F config.interval
      → InRange F (press F config keys).interval
  unfolding press
  press-InRange config [] h = h
  press-InRange config (key ∷ keys) h =
      press-InRange (ui_handle_key F config key).config keys (ui_handle_key-InRange config key h)

module _ {D : Type 0} (F : Double D) (config : NeoConfig D) where
  -- A key ends the program exactly if it is `q` or `Q`. It changes nothing but the sort mode, the
  -- interval and the order; it asks for a refresh exactly if it is one of the keys c m p + - r v,
  -- the letters in either case.
  pub ui_handle_key_effect :
      (key : ℕ)
      → let r = ui_handle_key F config key in
        (r.go_on ≡ not (key == b'q' || key == b'Q'))
        × (r.force_refresh
            ≡ key == b'c'
              || key == b'C'
              || key == b'm'
              || key == b'M'
              || key == b'p'
              || key == b'P'
              || key == b'+'
              || key == b'-'
              || key == b'r'
              || key == b'R'
              || key == b'v'
              || key == b'V')
        × (r.config ≡ record config {
          sort_mode = r.config.sort_mode;
          interval = r.config.interval;
          reverse = r.config.reverse;
        })
  unfolding ui_handle_key
  ui_handle_key_effect key = ground arith
