-- ===== src/Config/Signed.antt =====
-- internal/config/config.go again, with the settings as the source has them, of either sign, and
-- with the environment and the file that they are read from. Rates are in thousandths, as in Config,
-- and only settings that are whole thousandths are modelled.
-- Parameters: the environment (empty for a variable that is not set), os.ReadFile, yaml.Unmarshal,
-- and the three parsers of numbers, `none` for their errors.
pub mod Natural
pub mod Negative
use apicorex.Base.{ℕ, Bool, true, false, Option, none, some, List, [], ◌∷◌, if◌then◌else◌}
use apicorex.Base.Int.{ℤ, pos, ltb_ℤ, eq_ℤ}
use apicorex.Text.{Bytes, lit, is_empty}
use apicorex.Map.{Map, lookup, insert}
use apicorex.Config

-- Limits
pub record Limits : Type 0 where
  pub rate_per_sec : ℤ
  pub rate_burst : ℤ
  pub tenant_rate_per_sec : ℤ
  pub tenant_rate_burst : ℤ
  pub bulkhead_max : ℤ
  pub cb_threshold : ℤ
  pub cb_reset_timeout : ℤ
  pub request_timeout : ℤ

-- Config
pub record Settings : Type 0 where
  pub default : Limits
  pub plugins : Map Limits
  pub health_interval : ℤ

-- Settings that are natural numbers.
abbrev pub signed : Config.Limits → Limits
signed l = record {
  rate_per_sec = pos l.rate_per_sec;
  rate_burst = pos l.rate_burst;
  tenant_rate_per_sec = pos l.tenant_rate_per_sec;
  tenant_rate_burst = pos l.tenant_rate_burst;
  bulkhead_max = pos l.bulkhead_max;
  cb_threshold = pos l.cb_threshold;
  cb_reset_timeout = pos l.cb_reset_timeout;
  request_timeout = pos l.request_timeout;
}

pub signed_all : Map Config.Limits → Map Limits
signed_all [] = []
signed_all ((name, l) ∷ m) = (name, signed l) ∷ signed_all m

unfoldable pub signed_config : Config.Config → Settings
unfolding signed_all
signed_config c = record {
  default = signed c.default;
  plugins = signed_all c.plugins;
  health_interval = pos c.health_interval;
}

-- Defaults
unfoldable pub defaults : Settings
unfolding signed_config
defaults = signed_config Config.defaults

abbrev pub or_default : ℤ → ℤ → ℤ
or_default v d = if eq_ℤ v (pos 0) then d else v

-- withDefaults
unfoldable pub with_defaults : Limits → Limits → Limits
with_defaults l def = record {
  rate_per_sec = or_default l.rate_per_sec def.rate_per_sec;
  rate_burst = or_default l.rate_burst def.rate_burst;
  tenant_rate_per_sec = or_default l.tenant_rate_per_sec def.tenant_rate_per_sec;
  tenant_rate_burst = or_default l.tenant_rate_burst def.tenant_rate_burst;
  bulkhead_max = or_default l.bulkhead_max def.bulkhead_max;
  cb_threshold = or_default l.cb_threshold def.cb_threshold;
  cb_reset_timeout = or_default l.cb_reset_timeout def.cb_reset_timeout;
  request_timeout = or_default l.request_timeout def.request_timeout;
}

-- Config.For
unfoldable pub for : Bytes → Settings → Limits
for plugin_name c = elim (lookup plugin_name c.plugins) [
  | none ↦ c.default
  | some l ↦ with_defaults l c.default
]

unfoldable pub put_all : Map Limits → Map Limits → Map Limits
put_all [] m = m
put_all ((name, l) ∷ file) m = put_all file (insert name l m)

abbrev pub or_given : ℤ → ℤ → ℤ
or_given v l = if ltb_ℤ (pos 0) v then v else l

-- mergeFile
unfoldable pub merge_file : Settings → Settings → Settings
merge_file cfg file = record {
  default = with_defaults file.default cfg.default;
  plugins = put_all file.plugins cfg.plugins;
  health_interval = or_given file.health_interval cfg.health_interval;
}

-- What Load and its helpers take from outside.
pub record Outside : Type 0 where
  pub getenv : Bytes → Bytes
  pub read_file : Bytes → Option Bytes
  pub unmarshal : Bytes → Option Settings
  pub parse_float : Bytes → Option ℤ
  pub atoi : Bytes → Option ℤ
  pub parse_duration : Bytes → Option ℤ

abbrev pub or_zero : Option ℤ → ℤ
or_zero none = pos 0
or_zero (some v) = v

module _ (o : Outside) where
  -- envFloat, of a setting that is a whole number of thousandths
  abbrev pub env_float : Bytes → ℤ
  env_float k = or_zero (o.parse_float (o.getenv k))

  -- envInt
  abbrev pub env_int : Bytes → ℤ
  env_int k = or_zero (o.atoi (o.getenv k))

  -- envDuration
  abbrev pub env_duration : Bytes → ℤ
  env_duration k = or_zero (o.parse_duration (o.getenv k))

  -- applyEnv
  unfoldable pub apply_env : Limits → Limits
  apply_env l =
      let rate = env_float (lit "RATE_PER_SEC") in
      record l {
        rate_per_sec = or_given rate l.rate_per_sec;
        rate_burst =
            if ltb_ℤ (pos 0) rate
            then (if ltb_ℤ l.rate_burst rate then rate else l.rate_burst)
            else l.rate_burst;
        bulkhead_max = or_given (env_int (lit "BULKHEAD_MAX")) l.bulkhead_max;
        cb_threshold = or_given (env_int (lit "CB_THRESHOLD")) l.cb_threshold;
        cb_reset_timeout = or_given (env_duration (lit "CB_RESET_TIMEOUT")) l.cb_reset_timeout;
        request_timeout = or_given (env_duration (lit "REQUEST_TIMEOUT")) l.request_timeout;
      }

  -- The end of Load.
  unfoldable pub with_env : Settings → Settings
  with_env cfg = record cfg {
    default = apply_env cfg.default;
    health_interval = or_given (env_duration (lit "HEALTH_INTERVAL")) cfg.health_interval;
  }

  abbrev pub read_config : Bytes → Option Settings
  read_config path = elim (o.read_file path) [ none ↦ none | some b ↦ o.unmarshal b ]

  abbrev pub with_read : Option Settings → Settings × Bool
  with_read none = (defaults, false)
  with_read (some file) = (with_env (merge_file defaults file), true)

  -- Load, with whether it ended without an error; with one it gives the defaults.
  unfoldable pub load : Settings × Bool
  load =
      let path = o.getenv (lit "CONFIG_FILE") in
      if is_empty path then (with_env defaults, true) else with_read (read_config path)
